-- ===== src/Execution/Join.antt =====
-- NestedLoopJoinExecutor of src/execution/executor_nestedloop_join.h, over the executors of the two
-- inputs as the constructor has swapped them. `left_end_` and `right_end_` are set before each use.
pub mod Turn
pub mod Product
pub mod Restart
use grmdb.Base.{
  ℕ, zero, suc, List, [], ◌∷◌, ◌++◌, Bool, true, false, ◌&&◌, ◌||◌, not, Option, none, some, ◌>>=◌,
  if◌then◌else◌,
}
use grmdb.Execution.Executor.{Executor}

pub record NestedLoopJoin (L R : Type 0) : Type 0 where
  pub left : L
  pub right : R
  pub is_last_tuple : Bool
  pub isend : Bool
  pub tuple : Option (List ℕ)

unfoldable pub make_record : List ℕ → List ℕ → List ℕ
make_record tuple1 tuple2 = tuple1 ++ tuple2

abbrev pub Join : Executor → Executor → Type 0
Join left right = NestedLoopJoin left.State right.State

-- What the constructor leaves.
unfoldable pub new_join : (left right : Executor) → left.State → right.State → Join left right
new_join left right l r = record {
  left = l;
  right = r;
  is_last_tuple = false;
  isend = false;
  tuple = none;
}

-- The condition of the join may throw.
module _ (left right : Executor) (evaluate_join : List ℕ → Option Bool) where
  -- The inputs after the tuple that has been taken, and whether it was the last one.
  unfoldable pub advance : left.State → right.State → Option (left.State × right.State × Bool)
  advance l r = right.next_tuple r >>= (λ r'. elim (right.is_end r') [
    | true ↦
        left.next_tuple l
        >>= (λ l'. right.begin_tuple r' >>= (λ begun. some (l', begun, left.is_end l')))
    | false ↦ some (l, r', false)
  ])

  -- A turn of the loop: the executor, and whether the loop is left.
  unfoldable pub round : Join left right → Option (Join left right × Bool)
  unfolding advance make_record
  round s = left.next s.left >>= (λ l. right.next s.right >>= (λ r. advance l.1 r.1 >>= (λ after.
      evaluate_join (make_record l.0 r.0) >>= (λ matched. some (
        record {
          left = after.0;
          right = after.1;
          is_last_tuple = after.2;
          isend = if after.2 then not matched else s.isend;
          tuple = if matched then some (make_record l.0 r.0) else s.tuple;
        },
        matched,
      )))))

  -- The loop; `none` is an exception, or too little fuel.
  unfoldable pub find_match : ℕ → Join left right → Option (Join left right)
  unfolding round
  find_match zero s = none
  find_match (suc fuel) s =
      let found =
        round s >>= (λ turn. elim turn.1 [ true ↦ some turn.0 | false ↦ find_match fuel turn.0 ]) in
      elim s.is_last_tuple [ true ↦ some s | false ↦ found ]

  unfoldable pub begin_join : ℕ → Join left right → Option (Join left right)
  unfolding find_match
  begin_join fuel s = left.begin_tuple s.left >>= (λ l. right.begin_tuple s.right >>= (λ r.
      elim (left.is_end l || right.is_end r) [
        | true ↦ some (record s { left = l; right = r; is_last_tuple = true; isend = true })
        | false ↦ find_match fuel (record s { left = l; right = r })
      ]))

  unfoldable pub next_join : ℕ → Join left right → Option (Join left right)
  unfolding find_match
  next_join fuel s =
      find_match fuel
        (record s { isend = if s.is_last_tuple && not s.isend then true else s.isend })

  -- The record is moved out.
  unfoldable pub take_tuple : Join left right → Option (List ℕ × Join left right)
  take_tuple s = s.tuple >>= (λ tuple. some (tuple, record s { tuple = none }))

  abbrev pub join : ℕ → Executor
  join fuel = record {
    State = Join left right;
    begin_tuple = begin_join fuel;
    next_tuple = next_join fuel;
    is_end = λ s. s.isend;
    next = take_tuple;
  }
