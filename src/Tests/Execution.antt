-- ===== src/Tests/Execution.antt =====
-- Runs of the executors.
use grmdb.Base.{
  replicate, ℕ_discrete, ℕ, ◌≡◌, ◌==◌, refl, List, [], ◌∷◌, Bool, true, false, not, Option, none,
  some, arith, ltb,
}
use grmdb.Base.Int.{pos, negsuc, ℤ_discrete}
use grmdb.Execution.Executor.{Executor, Yields, Starts, select_from, select_from-Starts}
use grmdb.Execution.Value.{TabCol, int_val, float_val, Floats, op_lt, op_gt, value_comp}
use grmdb.Execution.Value.Swap.{value_comp-swap_op}
use grmdb.Record.Bitmap.{is_set, get_bucket, get_bit}
use grmdb.Record.Page.{RmFileHdr}
use grmdb.Record.File.{RmFile, rid_at, get_record}
use grmdb.Record.File.Scan.{open_scan}
use grmdb.Record.File.Walk.{IsWalk}
use grmdb.Record.File.Listed.{open_scan-IsWalk}
use grmdb.Execution.SeqScan.{SeqScan, tuple_at, seq_scan}
use grmdb.Execution.SeqScan.Found.{seq_scan-Starts}
use grmdb.System.Meta.{ColMeta, name_discrete}
use grmdb.Index.Key.{type_string}
use grmdb.Execution.Projection.{projection, new_projection}
use grmdb.Execution.Projection.Selected.{AreSelected, AreNamed}
use grmdb.Execution.Projection.Columns.{new_projection-Starts}
use grmdb.Execution.Join.{Join, make_record, new_join, round, find_match, join}
use grmdb.Execution.Join.Product.{join-Starts}
use grmdb.Execution.Join.Restart.{begin_join_again, round_after_join}

-- `float`s that are numbers.
abbrev floats : Floats ℕ
floats = record {
  eq = ◌==◌;
  lt = ltb;
  le = λ a b. not (ltb b a);
  of_int = λ z. 0;
  read = λ bytes. 0;
  write = λ a. a ∷ 0 ∷ 0 ∷ 0 ∷ [];
}

value_comp-swap_op_example :
    value_comp floats (int_val (pos 3)) (float_val 5) op_lt
    ≡ value_comp floats (float_val 5) (int_val (pos 3)) op_gt
value_comp-swap_op_example =
    value_comp-swap_op floats (int_val (pos 3)) (float_val 5) op_lt (λ a b. ground arith)

-- An executor of three tuples, which begins anew each time.
abbrev after : List (List ℕ) → Option (List (List ℕ))
after [] = none
after (tuple ∷ tuples) = some tuples

abbrev is_over : List (List ℕ) → Bool
is_over [] = true
is_over (tuple ∷ tuples) = false

abbrev current : List (List ℕ) → Option (List ℕ × List (List ℕ))
current [] = none
current (tuple ∷ tuples) = some (tuple, tuple ∷ tuples)

abbrev tuples : List (List ℕ)
tuples = (1 ∷ []) ∷ (2 ∷ []) ∷ (3 ∷ []) ∷ []

abbrev listed : Executor
listed = record {
  State = List (List ℕ);
  begin_tuple = λ s. some tuples;
  next_tuple = after;
  is_end = is_over;
  next = current;
}

tuples-Yields : Yields listed tuples tuples
tuples-Yields = (
  refl,
  tuples,
  refl,
  (2 ∷ []) ∷ (3 ∷ []) ∷ [],
  refl,
  (
    refl,
    (2 ∷ []) ∷ (3 ∷ []) ∷ [],
    refl,
    (3 ∷ []) ∷ [],
    refl,
    (refl, (3 ∷ []) ∷ [], refl, [], refl, refl),
  ),
)

listed-Starts : (s : List (List ℕ)) → Starts listed s tuples
listed-Starts s = (tuples, refl, tuples-Yields)

select_from-Starts_example :
    (select_from listed 4 false [] ≡ some (tuples, 3, false))
    × ((tuple : List ℕ) (rest : List (List ℕ))
        → tuples ≡ tuple ∷ rest
        → select_from listed 4 true [] ≡ some ([], 0, false))
    × (tuples ≡ [] → select_from listed 4 true [] ≡ some ([], 0, true))
select_from-Starts_example = select_from-Starts listed 4 [] tuples (listed-Starts []) (omega arith)

-- Pairs of equal columns match.
abbrev same_columns : List ℕ → Option Bool
same_columns (a ∷ b ∷ []) = some (a == b)
same_columns _ = none

listed_rereads :
    (s : List (List ℕ)) (tuple : List ℕ) (taken : List (List ℕ))
    → current s ≡ some (tuple, taken)
    → taken ≡ s
listed_rereads [] tuple taken h = absurd (cc)
listed_rereads (t ∷ s) tuple taken h = cc

join-Starts_example :
    Starts
      (join listed listed same_columns 10)
      (new_join listed listed [] [])
      ((1 ∷ 1 ∷ []) ∷ (2 ∷ 2 ∷ []) ∷ (3 ∷ 3 ∷ []) ∷ [])
unfolding make_record
join-Starts_example =
    join-Starts listed listed same_columns tuples listed_rereads listed-Starts 10 [] [] tuples
      ((1 ∷ 1 ∷ []) ∷ (2 ∷ 2 ∷ []) ∷ (3 ∷ 3 ∷ []) ∷ []) (listed-Starts []) refl (omega arith)

-- A join that has been drained.
abbrev drained : Join listed listed
drained = record { left = []; right = tuples; is_last_tuple = true; isend = true; tuple = none }

begin_join_again_example : Starts (join listed listed same_columns 10) drained []
begin_join_again_example =
    begin_join_again listed listed same_columns 9 drained tuples tuples refl refl refl refl

abbrev outer : Join (join listed listed same_columns 10) listed
outer = record {
  left = record (new_join listed listed tuples tuples) { tuple = some (1 ∷ 1 ∷ []) };
  right = tuples;
  is_last_tuple = false;
  isend = false;
  tuple = none;
}

round_after_join_example :
    (s' : Join (join listed listed same_columns 10) listed) × (round
        (join listed listed same_columns 10)
        listed
        (λ tuple. some false)
        outer
      ≡ some (s', false))
    × ((fuel : ℕ)
        → find_match (join listed listed same_columns 10) listed (λ tuple. some false) fuel s'
          ≡ none)
unfolding new_join
round_after_join_example =
    round_after_join listed listed listed same_columns (λ tuple. some false) 10 outer (1 ∷ 1 ∷ [])
      (1 ∷ []) (2 ∷ []) ((3 ∷ []) ∷ []) false refl tuples-Yields refl

-- A file of one page of four slots, of which 0 and 2 are taken, and 1 and 3 are not.
abbrev table_hdr : RmFileHdr
table_hdr = record {
  record_size = 1;
  num_pages = pos 2;
  num_records_per_page = 4;
  first_free_page_no = pos 1;
  bitmap_size = 2;
}

abbrev table : RmFile
table = record {
  file_hdr = table_hdr;
  disk_hdr = table_hdr;
  frames = λ _. record {
    page = record {
      next_free_page_no = negsuc 0;
      num_records = pos 2;
      bitmap = 0xA0 ∷ 0 ∷ [];
      slots = λ i. i ∷ [];
    };
    page_lsn = pos 0;
    pin_count = 0;
    is_dirty = false;
  };
  next_page = pos 2;
}

open_scan-IsWalk_example : IsWalk table (open_scan table) (rid_at (pos 1) 0 ∷ rid_at (pos 1) 2 ∷ [])
unfolding is_set get_bucket get_bit
open_scan-IsWalk_example = open_scan-IsWalk table

-- The condition that the column is above 0.
abbrev above_zero : List ℕ → Option Bool
above_zero (a ∷ []) = some (ltb 0 a)
above_zero _ = none

abbrev unread : SeqScan
unread = record {
  rid = rid_at (pos 1) 0;
  scan = open_scan table;
  ended = true;
  last_rid = rid_at (pos 1) 2;
}

seq_scan-Starts_example : Starts (seq_scan table above_zero 3) unread ((2 ∷ []) ∷ [])
unfolding is_set get_bucket get_bit tuple_at get_record ℤ_discrete ℕ_discrete
seq_scan-Starts_example =
    seq_scan-Starts table above_zero 3 unread (rid_at (pos 1) 2 ∷ []) refl (omega arith)

-- A column of one byte, asked for twice, the second time under the name b.
abbrev column : ℕ → List ℕ → ColMeta
column offset name = record {
  tab_name = 116 ∷ [];
  name = name;
  col_type = type_string;
  len = 1;
  offset = offset;
}

abbrev tab_col : List ℕ → TabCol
tab_col name = record { tab_name = 116 ∷ []; col_name = name }

abbrev picked : List (ColMeta × ColMeta)
picked = (column 0 (97 ∷ []), column 0 (97 ∷ [])) ∷ (column 1 (98 ∷ []), column 0 (97 ∷ [])) ∷ []

new_projection-Starts_example :
    AreSelected (column 0 (97 ∷ []) ∷ []) (tab_col (97 ∷ []) ∷ tab_col (97 ∷ []) ∷ []) picked
    × AreNamed (tab_col (97 ∷ []) ∷ tab_col (98 ∷ []) ∷ []) picked
    × Starts
        (projection (λ n. replicate n 7) listed picked 2)
        []
        ((1 ∷ 1 ∷ []) ∷ (2 ∷ 2 ∷ []) ∷ (3 ∷ 3 ∷ []) ∷ [])
unfolding new_projection name_discrete ℕ_discrete
new_projection-Starts_example =
    new_projection-Starts (λ n. replicate n 7) listed (column 0 (97 ∷ []) ∷ [])
      (tab_col (97 ∷ []) ∷ tab_col (97 ∷ []) ∷ []) (tab_col (97 ∷ []) ∷ tab_col (98 ∷ []) ∷ [])
      (picked, 2) tuples [] refl refl (listed-Starts [])
      ((refl, (refl, tt)), ((refl, (refl, tt)), ((refl, (refl, tt)), tt)))
