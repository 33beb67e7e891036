-- ===== src/Execution/Projection.antt =====
-- ProjectionExecutor of src/execution/executor_projection.h over any executor. A column is kept
-- with the column of the input that it is copied from, in place of that column's index.
pub mod Fields
pub mod Selected
pub mod Columns
use grmdb.Base.{
  ℕ, ◌+◌, refl, List, [], ◌∷◌, ◌&&◌, Option, none, some, ◌>>=◌, take, drop, replicate, map,
}
use grmdb.System.Meta.{ColMeta, same_name, find_col}
use grmdb.Transaction.Manager.{write_at}
use grmdb.Execution.Executor.{Executor, Yields, Starts}
use grmdb.Execution.Value.{TabCol}

-- The columns one behind another from an offset on, and the length; `none` is the
-- ColumnNotFoundError.
unfoldable pub select_cols : List ColMeta → ℕ → List TabCol → Option (List (ColMeta × ColMeta) × ℕ)
unfolding find_col
select_cols prev_cols curr_offset [] = some ([], curr_offset)
select_cols prev_cols curr_offset (sel_col ∷ sel_cols) =
    find_col (λ col. same_name col.tab_name sel_col.tab_name && same_name col.name sel_col.col_name)
      prev_cols
    >>= (λ col.
        select_cols prev_cols (curr_offset + col.len) sel_cols
        >>= (λ rest. some ((record col { offset = curr_offset }, col) ∷ rest.0, rest.1)))

-- The names that the query gives; `none` is one too many.
unfoldable pub rename_cols :
    List (ColMeta × ColMeta) → List TabCol → Option (List (ColMeta × ColMeta))
rename_cols picked [] = some picked
rename_cols [] (col ∷ cols) = none
rename_cols ((to, from) ∷ picked) (col ∷ cols) =
    rename_cols picked cols >>= (λ rest. some ((record to { name = col.col_name }, from) ∷ rest))

unfoldable pub new_projection :
    List ColMeta → List TabCol → List TabCol → Option (List (ColMeta × ColMeta) × ℕ)
unfolding select_cols rename_cols
new_projection prev_cols sel_cols cols =
    select_cols prev_cols 0 sel_cols
    >>= (λ selected. rename_cols selected.0 cols >>= (λ picked. some (picked, selected.1)))

-- The columns of a record of the input, over the memory that is there.
unfoldable pub project : List (ColMeta × ColMeta) → List ℕ → List ℕ → List ℕ
project [] prev_data rec = rec
project ((to, from) ∷ picked) prev_data rec = project picked prev_data (
    write_at (write_at rec to.offset (replicate to.len 0)) to.offset
      (take to.len (drop from.offset prev_data)))

module _ (raw : ℕ → List ℕ) (prev : Executor) (picked : List (ColMeta × ColMeta)) (len : ℕ) where
  abbrev pub projected : List ℕ → List ℕ
  projected prev_data = project picked prev_data (raw len)

  abbrev pub projection : Executor
  projection = record {
    State = prev.State;
    begin_tuple = prev.begin_tuple;
    next_tuple = prev.next_tuple;
    is_end = prev.is_end;
    next = λ s. prev.next s >>= (λ taken. some (projected taken.0, taken.1));
  }

  projection-Yields :
      (tuples : List (List ℕ)) (s : prev.State)
      → Yields prev s tuples
      → Yields projection s (map projected tuples)
  projection-Yields [] s ended = ended
  projection-Yields (tuple ∷ tuples) s (more, taken, e, rest, e', yields) =
      (more, taken, rw e refl, rest, e', projection-Yields tuples rest yields)

  -- A projection yields the projected records of its input, in the same order.
  pub projection-Starts :
      (tuples : List (List ℕ)) (s : prev.State)
      → Starts prev s tuples
      → Starts projection s (map projected tuples)
  projection-Starts tuples s (begun, e, yields) = (begun, e, projection-Yields tuples begun yields)
