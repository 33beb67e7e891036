-- ===== src/Execution/SeqScan.antt =====
-- SeqScanExecutor of src/execution/executor_seq_scan.h over a record file that does not change:
-- what `get_record` does to the pins of a page is in the model of the file, and the locks of the
-- records that it asks for are taken to be granted. The lock of the table is taken by the
-- constructor, and the types of the conditions are compared there.
pub mod Found
use grmdb.Base.{
  ℕ, zero, suc, List, [], ◌∷◌, Bool, true, false, Option, none, some, ◌>>=◌, if◌then◌else◌, ite,
}
use grmdb.Defs.{Rid, Rid_discrete}
use grmdb.Record.File.{RmFile, get_record}
use grmdb.Record.File.Scan.{RmScan, open_scan, next, is_end}
use grmdb.Execution.Executor.{Executor}

pub record SeqScan : Type 0 where
  pub rid : Rid
  pub scan : RmScan
  pub ended : Bool
  pub last_rid : Rid

unfoldable pub tuple_at : RmFile → Rid → List ℕ
unfolding get_record
tuple_at file rid = (get_record file rid).0

-- `eval_condition` may throw; the loops are on fuel.
module _ (file : RmFile) (test : List ℕ → Option Bool) where
  -- The first loop of `beginTuple`: the last record that the conditions hold for.
  unfoldable pub find_last : ℕ → RmScan → Rid → Option Rid
  unfolding tuple_at
  find_last zero scan last_rid = none
  find_last (suc fuel) scan last_rid =
      let found =
        test (tuple_at file scan.rid)
        >>= (λ held. find_last fuel (next scan file) (if held then scan.rid else last_rid)) in
      elim (is_end scan) [ true ↦ some last_rid | false ↦ found ]

  -- The second loop, up to the first record.
  unfoldable pub find_first : ℕ → SeqScan → Option SeqScan
  unfolding tuple_at
  find_first zero s = none
  find_first (suc fuel) s =
      let moved = record s { scan = next s.scan file } in
      let found = test (tuple_at file s.rid) >>= (λ held. elim held [
        | true ↦ some moved
        | false ↦ find_first fuel (record moved { rid = moved.scan.rid })
      ]) in
      elim (is_end s.scan) [ true ↦ some (record s { ended = true }) | false ↦ found ]

  unfoldable pub begin_scan : ℕ → SeqScan → Option SeqScan
  unfolding find_last find_first
  begin_scan fuel s =
      let opened = open_scan file in
      find_last fuel opened s.last_rid >>= (λ last_rid.
        find_first fuel
          (record { rid = opened.rid; scan = opened; ended = false; last_rid = last_rid }))

  -- The loop of `nextTuple`.
  unfoldable pub find_next : ℕ → SeqScan → Option SeqScan
  unfolding tuple_at
  find_next zero s = none
  find_next (suc fuel) s =
      let moved = record s { rid = s.scan.rid; scan = next s.scan file } in
      let found =
        test (tuple_at file s.scan.rid)
        >>= (λ held. elim held [ true ↦ some moved | false ↦ find_next fuel moved ]) in
      elim (is_end s.scan) [ true ↦ some s | false ↦ found ]

  unfoldable pub next_scan : ℕ → SeqScan → Option SeqScan
  unfolding find_next Rid_discrete
  next_scan fuel s =
      ite (Rid_discrete s.last_rid s.rid) (some (record s { ended = true })) (find_next fuel s)

  abbrev pub seq_scan : ℕ → Executor
  seq_scan fuel = record {
    State = SeqScan;
    begin_tuple = begin_scan fuel;
    next_tuple = next_scan fuel;
    is_end = λ s. s.ended;
    next = λ s. some (tuple_at file s.rid, s);
  }
