-- ===== src/Transaction/Manager.antt =====
-- TransactionManager of src/transaction/transaction_manager.cpp and .h, with the WriteRecord of
-- txn_defs.h and the rest of the Transaction of transaction.h. The lock manager and the trees of the
-- indexes stand behind their operations: `unlock` and `calculate_gaps_on_table`, `delete_entry` and
-- `insert_entry`. The memory that `new char` gives is a parameter.
pub mod Logged
pub mod Rollback
pub mod Abort
use grmdb.Base.{
  ◌>>=◌, ℕ, ◌+◌, List, [], ◌∷◌, ◌++◌, Bool, true, false, ◌||◌, not, Option, none, some, ite,
  if◌then◌else◌, holds, length, take, drop, put,
}
use grmdb.Base.Int.{ℤ, pos, negsuc, incr, ℤ_discrete}
use grmdb.Defs.{Rid}
use grmdb.Storage.Disk.{Disk}
use grmdb.System.Meta.{ColMeta, IndexMeta, TabMeta, same_name, get_col, get_index_name}
use grmdb.Record.File.{RmFile, delete_record, insert_record_at, update_record}
use grmdb.Recovery.LogManager.{LogManager, flush_log_to_disk, add_log_to_buffer}
use grmdb.Recovery.LogRecord.{
  LogRecord, invalid_lsn, serialize, begin_record, commit_record, abort_record,
}
use grmdb.Transaction.Defs.{Transaction, TransactionState, LockDataId}

pub data WType : Type 0 where
  insert_tuple : WType
  delete_tuple : WType
  update_tuple : WType

-- The copies of the record and of the old one, where there are.
pub record WriteRecord : Type 0 where
  pub wtype : WType
  pub tab_name : List ℕ
  pub rid : Rid
  pub tuple : Option (List ℕ)
  pub tuple_old : Option (List ℕ)

-- The write set from its back on.
pub record Txn : Type 0 where
  pub locking : Transaction
  pub prev_lsn : ℤ
  pub start_ts : ℤ
  pub write_set : List WriteRecord

-- `start_ts_` is left as it is found.
unfoldable pub new_txn : ℤ → ℤ → Txn
new_txn garbage txn_id = record {
  locking = record { state = TransactionState.default; txn_id = txn_id; lock_set = [] };
  prev_lsn = invalid_lsn;
  start_ts = garbage;
  write_set = [];
}

unfoldable pub set_state : Txn → TransactionState → Txn
set_state txn state = record txn { locking = record (txn.locking) { state = state } }

unfoldable pub append_write_record : Txn → WriteRecord → Txn
append_write_record txn write = record txn { write_set = write ∷ txn.write_set }

pub record TransactionManager : Type 0 where
  pub next_txn_id : ℤ
  pub next_timestamp : ℤ
  pub txn_map : List (ℤ × Txn)

module _ {D : Type 0} where
  -- The log record of a transaction, which is linked to its last one.
  unfoldable pub log_end : Txn → LogManager → Disk D → LogRecord → Txn × LogManager × Disk D
  log_end txn log_manager disk log =
      let linked = record log { prev_lsn = txn.prev_lsn } in
      let (lsn, log_manager', disk') =
        add_log_to_buffer log_manager disk linked.log_tot_len
          (λ lsn. serialize (record linked { lsn = lsn })) in
      (record txn { prev_lsn = lsn }, log_manager', disk')

  -- A new transaction, where no one is given; the map holds the transaction that is returned.
  unfoldable pub begin :
      ℤ
      → TransactionManager
      → Option Txn
      → LogManager
      → Disk D
      → Txn × TransactionManager × LogManager × Disk D
  unfolding log_end new_txn set_state begin_record
  begin garbage tm none log_manager disk =
      let txn_id = tm.next_txn_id in
      let (log_manager', disk') = flush_log_to_disk log_manager disk in
      let txn = record (new_txn garbage txn_id) { start_ts = tm.next_timestamp } in
      let (begun, log_manager'', disk'') =
        log_end (set_state txn TransactionState.growing) log_manager' disk' (begin_record txn_id) in
      (
        begun,
        record {
          next_txn_id = incr txn_id;
          next_timestamp = incr tm.next_timestamp;
          txn_map = put ℤ_discrete txn_id begun tm.txn_map;
        },
        log_manager'',
        disk'',
      )
  begin garbage tm (some txn) log_manager disk =
      let txn_id = txn.locking.txn_id in
      let (begun, log_manager', disk') =
        log_end (set_state txn TransactionState.growing) log_manager disk (begin_record txn_id) in
      (begun, record tm { txn_map = put ℤ_discrete txn_id begun tm.txn_map }, log_manager', disk')

-- `memcpy` into a key.
abbrev pub write_at : List ℕ → ℕ → List ℕ → List ℕ
write_at key offset bytes = take offset key ++ (bytes ++ drop (offset + length bytes) key)

-- The key of a record, over the memory that is there; `none` is the ColumnNotFoundError.
unfoldable pub write_cols : TabMeta → List ℕ → List ColMeta → List ℕ → Option (List ℕ)
unfolding get_col
write_cols tab tuple [] key = some key
write_cols tab tuple (col ∷ cols) key = get_col tab col.name >>= (λ found.
    write_cols tab tuple cols (write_at key col.offset (take col.len (drop found.offset tuple))))

unfoldable pub index_key : (ℕ → List ℕ) → TabMeta → IndexMeta → List ℕ → Option (List ℕ)
unfolding write_cols
index_key raw tab index tuple =
    write_cols tab tuple (take index.col_num index.cols) (raw index.col_tot_len)

pub record IndexHandle (Ix : Type 0) : Type 0 where
  pub tree : Ix
  pub index_aborted : Bool

-- The files and the indexes that are open, by name, and the catalog. `at` and `get_table` throw
-- where there is none.
pub record Database (L Ix : Type 0) : Type 0 where
  pub fhs : List ℕ → RmFile
  pub tabs : List ℕ → Option TabMeta
  pub ihs : List ℕ → Option (IndexHandle Ix)
  pub locks : L

-- The operations of the trees and of the lock manager; `none` is an exception.
pub record Services (L Ix : Type 0) : Type 0 where
  pub unlock : L → ℤ → LockDataId → L
  pub calculate_gaps_on_table : L → LockDataId → L
  pub delete_entry : Ix → List ℕ → Option Ix
  pub insert_entry : Ix → List ℕ → Rid → Option Ix
  pub raw : ℕ → List ℕ

module _ {L Ix : Type 0} (services : Services L Ix) where
  unfoldable pub set_file : Database L Ix → List ℕ → RmFile → Database L Ix
  set_file db tab_name file = record db {
    fhs = λ name. if same_name tab_name name then file else db.fhs name;
  }

  -- The tree of an index, with the flag.
  unfoldable pub set_index : Database L Ix → List ℕ → Ix → Database L Ix
  set_index db ix_name tree = record db {
    ihs = λ name.
        if same_name ix_name name
        then some (record { tree = tree; index_aborted = true })
        else db.ihs name;
  }

  -- A change of one index of a table.
  unfoldable pub on_index :
      List ℕ → (Ix → IndexMeta → Option Ix) → Database L Ix → IndexMeta → Option (Database L Ix)
  unfolding get_index_name set_index
  on_index tab_name change db index =
      let ix_name = get_index_name tab_name index.cols in
      db.ihs ix_name >>= (λ ih. change ih.tree index >>= (λ tree. some (set_index db ix_name tree)))

  unfoldable pub on_indexes :
      List ℕ
      → (Ix → IndexMeta → Option Ix)
      → List IndexMeta
      → Database L Ix
      → Option (Database L Ix)
  unfolding on_index
  on_indexes tab_name change [] db = some db
  on_indexes tab_name change (index ∷ indexes) db =
      on_index tab_name change db index >>= (λ db'. on_indexes tab_name change indexes db')

  unfoldable pub calculate_gaps : List LockDataId → L → L
  calculate_gaps [] locks = locks
  calculate_gaps (lock_data_id ∷ lock_set) locks =
      calculate_gaps lock_set (services.calculate_gaps_on_table locks lock_data_id)

  -- The indexes of a table, where it has some, and then the gaps of the locks.
  unfoldable pub undo_indexes :
      List LockDataId
      → List IndexMeta
      → List ℕ
      → (Ix → IndexMeta → Option Ix)
      → Database L Ix
      → Option (Database L Ix)
  unfolding on_indexes calculate_gaps
  undo_indexes lock_set [] tab_name change db = some db
  undo_indexes lock_set (index ∷ indexes) tab_name change db =
      on_indexes tab_name change (index ∷ indexes) db
      >>= (λ db'. some (record db' { locks = calculate_gaps lock_set db'.locks }))

  -- What an exception of `insert_entry` leaves, where it is caught.
  abbrev or_same : Ix → Option Ix → Option Ix
  or_same tree none = some tree
  or_same tree (some changed) = some changed

  -- One record of the write set. `none` is an exception, or a copy of a record that is missing.
  module _ (lock_set : List LockDataId) where
    unfoldable pub undo_tuple :
        TabMeta
        → List ℕ
        → Rid
        → Database L Ix
        → WType
        → Option (List ℕ)
        → Option (List ℕ)
        → Option (Database L Ix)
    unfolding undo_indexes set_file index_key delete_record insert_record_at update_record
    undo_tuple tab tab_name rid db insert_tuple none none = some db
    undo_tuple tab tab_name rid db insert_tuple none (some old) =
        undo_indexes lock_set tab.indexes tab_name (λ tree index. none)
          (set_file db tab_name (delete_record (db.fhs tab_name) rid none))
    undo_tuple tab tab_name rid db insert_tuple (some tuple) old =
        undo_indexes lock_set tab.indexes tab_name
          (λ tree index. index_key services.raw tab index tuple >>= services.delete_entry tree)
          (set_file db tab_name (delete_record (db.fhs tab_name) rid none))
    undo_tuple tab tab_name rid db delete_tuple none none = some db
    undo_tuple tab tab_name rid db delete_tuple none (some old) = none
    undo_tuple tab tab_name rid db delete_tuple (some tuple) old =
        undo_indexes lock_set tab.indexes tab_name
          (λ tree index.
            index_key services.raw tab index tuple
            >>= (λ key. or_same tree (services.insert_entry tree key rid)))
          (set_file db tab_name (insert_record_at (db.fhs tab_name) rid tuple))
    undo_tuple tab tab_name rid db update_tuple none none = some db
    undo_tuple tab tab_name rid db update_tuple (some tuple) none = none
    undo_tuple tab tab_name rid db update_tuple tuple (some old) =
        undo_indexes lock_set tab.indexes tab_name
          (λ tree index. index_key services.raw tab index old >>= (λ old_key.
            (tuple >>= index_key services.raw tab index) >>= (λ new_key.
              services.delete_entry tree new_key
              >>= (λ tree'. services.insert_entry tree' old_key rid))))
          db
        >>= (λ db'. some (set_file db' tab_name (update_record (db'.fhs tab_name) rid old none)))

    unfoldable pub undo_write : WriteRecord → Database L Ix → Option (Database L Ix)
    unfolding undo_tuple
    undo_write w db =
        db.tabs w.tab_name
        >>= (λ tab. undo_tuple tab w.tab_name w.rid db w.wtype w.tuple w.tuple_old)

  -- The write set from its back to its front.
  unfoldable pub undo_writes :
      List LockDataId → List WriteRecord → Database L Ix → Option (Database L Ix)
  unfolding undo_write
  undo_writes lock_set [] db = some db
  undo_writes lock_set (w ∷ write_set) db =
      undo_write lock_set w db >>= undo_writes lock_set write_set

  unfoldable pub unlock_all : ℤ → List LockDataId → L → L
  unlock_all txn_id [] locks = locks
  unlock_all txn_id (lock_data_id ∷ lock_set) locks =
      unlock_all txn_id lock_set (services.unlock locks txn_id lock_data_id)

  -- What a transaction does at its end: its locks go, and its last log record is added, where there
  -- is a log manager.
  unfoldable pub finish :
      {D : Type 0}
      → TransactionState
      → (ℤ → LogRecord)
      → Txn
      → Option (LogManager × Disk D)
      → Database L Ix
      → Txn × Option (LogManager × Disk D) × Database L Ix
  unfolding unlock_all log_end set_state
  finish state log txn logging db =
      let txn_id = txn.locking.txn_id in
      let released = record txn { locking = record (txn.locking) { lock_set = [] } } in
      let unlocked = record db { locks = unlock_all txn_id txn.locking.lock_set db.locks } in
      elim logging [
        | none ↦ (set_state released state, none, unlocked)
        | some (log_manager, disk) ↦
            let (logged, log_manager', disk') = log_end released log_manager disk (log txn_id) in
            (set_state logged state, some (log_manager', disk'), unlocked)
      ]

  unfoldable pub commit :
      {D : Type 0}
      → Txn
      → Option (LogManager × Disk D)
      → Database L Ix
      → Txn × Option (LogManager × Disk D) × Database L Ix
  unfolding finish commit_record
  commit txn logging db =
      finish TransactionState.committed commit_record (record txn { write_set = [] }) logging db

  -- `none` is an exception, after which no lock has been released.
  unfoldable pub abort :
      {D : Type 0}
      → Txn
      → Option (LogManager × Disk D)
      → Database L Ix
      → Option (Txn × Option (LogManager × Disk D) × Database L Ix)
  unfolding undo_writes finish abort_record
  abort txn logging db = undo_writes txn.locking.lock_set txn.write_set db >>= (λ undone.
      some (
        finish TransactionState.aborted abort_record (record txn { write_set = [] }) logging
          undone))
