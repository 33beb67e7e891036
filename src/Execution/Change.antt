-- ===== src/Execution/Change.antt =====
-- What the executors of changes share (src/execution/executor_delete.h and executor_update.h): the
-- database, the transaction and the log that they change, an exception and what it leaves, and the
-- locks of records. The lock manager stands behind its operations.
pub mod Targets
pub mod Logged
use grmdb.Base.{ℕ, List, [], ◌∷◌, Bool, true, false, Option, none, some, if◌then◌else◌}
use grmdb.Base.Int.{ℤ}
use grmdb.Defs.{Rid}
use grmdb.Storage.Disk.{Disk}
use grmdb.System.Meta.{IndexMeta, TabMeta, same_name, get_index_name}
use grmdb.Record.File.{RmFile, get_record}
use grmdb.Recovery.LogManager.{LogManager, add_log_to_buffer}
use grmdb.Recovery.LogRecord.{Place}
use grmdb.Transaction.Defs.{Transaction}
use grmdb.Transaction.Manager.{Txn, Database, Services, IndexHandle, set_file, index_key}

-- What a statement reads and changes.
pub record Session (L Ix D : Type 0) : Type 0 where
  pub db : Database L Ix
  pub txn : Txn
  pub log_manager : LogManager
  pub disk : Disk D

-- A call returns, or throws; both leave a state.
pub data Outcome (S : Type 0) : Type 0 where
  done : S → Outcome S
  threw : S → Outcome S

abbrev pub state_of : {S : Type 0} → Outcome S → S
state_of (done s) = s
state_of (threw s) = s

unfoldable pub and_then : {S : Type 0} → Outcome S → (S → Outcome S) → Outcome S
and_then (done s) f = f s
and_then (threw s) f = threw s

-- What may throw before a step.
unfoldable pub with_value : {A S : Type 0} → Option A → S → (A → Outcome S) → Outcome S
with_value none s f = threw s
with_value (some a) s f = f a

-- A step whose exception has a handler.
unfoldable pub try_catch : {A S : Type 0} → Option A → Outcome S → (A → Outcome S) → Outcome S
try_catch none handler f = handler
try_catch (some a) handler f = f a

-- The locks of a record: whether the call returns, what the lock manager is after it, and the
-- transaction.
pub record RecordLocks (L Ix : Type 0) : Type 0 where
  pub lock_shared : L → Transaction → Rid → ℤ → Bool × L × Transaction
  pub lock_gap : L → Transaction → Rid → ℤ → List ℕ → IndexMeta → Ix → Bool × L × Transaction

module _ {L Ix D : Type 0} (services : Services L Ix) (locks : RecordLocks L Ix) where
  -- A call of the lock manager.
  unfoldable pub locked : Session L Ix D → Bool × L × Transaction → Outcome (Session L Ix D)
  locked s (granted, l, txn) =
      let s' = record s {
        db = record (s.db) { locks = l };
        txn = record (s.txn) { locking = txn };
      } in
      if granted then done s' else threw s'

  -- `get_record`: the lock, and then the page; what is copied is in the state that is left.
  unfoldable pub read_tuple : Session L Ix D → List ℕ → ℤ → Rid → Outcome (Session L Ix D)
  unfolding locked set_file get_record
  read_tuple s tab_name fd rid =
      and_then (locked s (locks.lock_shared s.db.locks s.txn.locking rid fd)) (λ s'.
        done (record s' {
          db = set_file services s'.db tab_name (get_record (s'.db.fhs tab_name) rid).1;
        }))

  -- A tree of an index; the flag stays.
  unfoldable pub set_tree : Session L Ix D → List ℕ → IndexHandle Ix → Ix → Session L Ix D
  set_tree s ix_name ih tree = record s {
    db = record (s.db) {
      ihs = λ name.
          if same_name ix_name name then some (record ih { tree = tree }) else s.db.ihs name;
    };
  }

  -- The place that a log record names.
  unfoldable pub place_of : Session L Ix D → List ℕ → Rid → Place
  place_of s tab_name rid =
      let hdr = (s.db.fhs tab_name).file_hdr in
      record {
        rid = rid;
        table_name = tab_name;
        first_free_page_no = hdr.first_free_page_no;
        num_pages = hdr.num_pages;
      }

  -- A log record of a length. The transaction remembers the number that is the next one before it.
  unfoldable pub log_change : Session L Ix D → ℕ → (ℤ → List ℕ) → Session L Ix D
  unfolding add_log_to_buffer
  log_change s log_tot_len serialize =
      let lsn = s.log_manager.global_lsn in
      let (_, log_manager, disk) = add_log_to_buffer s.log_manager s.disk log_tot_len serialize in
      record s { txn = record (s.txn) { prev_lsn = lsn }; log_manager = log_manager; disk = disk }
