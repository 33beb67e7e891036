-- ===== src/Tests/Changes.antt =====
-- Runs of the statements that change a table.
use grmdb.Base.{ℕ, ◌∷◌, [], List, Bool, true, Option, some, none, refl, arith, inr, ltb, ◌==◌, not}
use grmdb.Base.Int.{pos, negsuc}
use grmdb.Defs.{Rid}
use grmdb.System.Meta.{TabMeta}
use grmdb.Index.Key.{type_string}
use grmdb.Record.Bitmap.{is_set, get_bucket, get_bit}
use grmdb.Transaction.Defs.{TransactionState}
use grmdb.Transaction.Manager.Logged.{records}
use grmdb.Execution.Value.{str_val, Floats}
use grmdb.Execution.Change.{Session, RecordLocks, state_of}
use grmdb.Execution.Change.Logged.{IsSound, IsReady}
use grmdb.Execution.Change.Targets.{AreTargets, rids_of}
use grmdb.Execution.Delete.{delete_all}
use grmdb.Execution.Delete.Logged.{delete_all-IsSound}
use grmdb.Execution.Update.{SetClause, update_all}
use grmdb.Execution.Update.Logged.{update_all-IsSound}
use grmdb.Tests.Transactions.{services, name, found, rid, file-IsRoomy}

-- All locks are granted.
abbrev granting : RecordLocks ℕ ℕ
granting = record {
  lock_shared = λ locks txn rid fd. (true, locks, txn);
  lock_gap = λ locks txn rid fd key index tree. (true, locks, txn);
}

abbrev session : Session ℕ ℕ ℕ
session = record {
  db = found;
  txn = record {
    locking = record { state = TransactionState.growing; txn_id = pos 1; lock_set = [] };
    prev_lsn = negsuc 0;
    start_ts = pos 0;
    write_set = [];
  };
  log_manager = record { global_lsn = pos 4; log_buffer = []; persist_lsn = negsuc 0 };
  disk = record { blocks = λ fd offset. none; fd2pageno = λ fd. pos 1; log_file = [] };
}

abbrev tab : TabMeta
tab = record {
  name = name;
  cols =
      record { tab_name = name; name = 97 ∷ []; col_type = type_string; len = 1; offset = 0 } ∷ [];
  indexes = [];
}

-- The records of slots 2 and 0 of page 1.
abbrev targets : List (Rid × List ℕ)
targets = (rid, 2 ∷ []) ∷ (record { page_no = pos 1; slot_no = pos 0 }, 0 ∷ []) ∷ []

abbrev above_zero : List ℕ → Option Bool
above_zero (a ∷ []) = some (ltb 0 a)
above_zero _ = none

session-IsReady : IsReady services granting (λ _. 4) (records found) name targets session
unfolding is_set get_bucket get_bit
session-IsReady = (((λ _. file-IsRoomy), λ other q i. refl), (refl, (refl, tt)))

targets-AreTargets : AreTargets 4 targets
targets-AreTargets = (omega arith, (inr (λ e. omega (arith, e)), tt), (omega arith, tt, tt))

delete_all-IsSound_example :
    IsSound services granting
      (λ _. 4)
      (records found)
      name
      (state_of
        (delete_all services granting tab name (pos 3) above_zero session (rids_of targets)))
delete_all-IsSound_example =
    delete_all-IsSound services granting (λ _. 4) (records found) tab name (pos 3) above_zero refl
      targets session session-IsReady targets-AreTargets

abbrev floats : Floats ℕ
floats = record {
  eq = ◌==◌;
  lt = ltb;
  le = λ a b. not (ltb b a);
  of_int = λ z. 0;
  read = λ bytes. 0;
  write = λ a. a ∷ 0 ∷ 0 ∷ 0 ∷ [];
}

abbrev set_clauses : List (SetClause ℕ)
set_clauses =
    record { lhs = record { tab_name = name; col_name = 97 ∷ [] }; rhs = str_val (98 ∷ []) } ∷ []

update_all-IsSound_example :
    IsSound services granting
      (λ _. 4)
      (records found)
      name
      (state_of (
        update_all services granting floats tab name
          (pos 3)
          above_zero
          set_clauses
          session
          (rids_of targets)))
update_all-IsSound_example =
    update_all-IsSound services granting (λ _. 4) (records found) floats tab name (pos 3) above_zero
      set_clauses targets session session-IsReady targets-AreTargets
