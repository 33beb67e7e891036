-- ===== src/Transaction/Manager/Abort.antt =====
-- `abort`: the files of the tables hold again the records that the transaction found there.
use grmdb.Base.{
  some_injective, bind_some, bind_all, ℕ, ◌≡◌, refl, sym, ap, subst, ◌∙◌, List, [], ◌∷◌, Option,
  none, some,
}
use grmdb.Base.Int.{ℤ}
use grmdb.Defs.{Rid}
use grmdb.Storage.Disk.{Disk}
use grmdb.System.Meta.{TabMeta}
use grmdb.Record.File.{slot_of, delete_record, insert_record_at, update_record}
use grmdb.Recovery.LogManager.{LogManager}
use grmdb.Recovery.LogRecord.{LogRecord, abort_record}
use grmdb.Transaction.Defs.{LockDataId, TransactionState}
use grmdb.Transaction.Manager.{
  WType, WriteRecord, Txn, Database, Services, set_file, undo_indexes, undo_tuple, undo_write,
  undo_writes, finish, abort, log_end, set_state,
}
use grmdb.Transaction.Manager.Logged.{Records, Logs, Same, IsLogged, records, AreRoomy}
use grmdb.Transaction.Manager.Rollback.{fhs_or, Restores, fhs-Restores, undo_tuple-Restores}

pub IsLogged-Same :
    (limit : List ℕ → ℕ) (before : Records) (write_set : List WriteRecord) (after after' : Records)
    → IsLogged limit before write_set after
    → Same after after'
    → IsLogged limit before write_set after'
IsLogged-Same limit before [] after after' logged same = λ name p i. same name p i ∙ logged name p i
IsLogged-Same limit before (w ∷ write_set) after after' (between, inside, logged, (logs, others))
      same =
    (
      between,
      inside,
      logged,
      (
        subst (Logs w.wtype w.tuple w.tuple_old (between w.tab_name w.rid.page_no (slot_of w.rid)))
            (sym (same w.tab_name w.rid.page_no (slot_of w.rid))) logs,
        λ name p i apart. same name p i ∙ others name p i apart,
      ),
    )

module _ {L Ix : Type 0} (services : Services L Ix) where
  undo_writes-Restores :
      (limit : List ℕ → ℕ) (lock_set : List LockDataId) (before : Records)
      (write_set : List WriteRecord) (db db' : Database L Ix)
      → AreRoomy limit db
      → IsLogged limit before write_set (records db)
      → undo_writes services lock_set write_set db ≡ some db'
      → Restores limit before db'
  unfolding undo_writes undo_write
  undo_writes-Restores limit lock_set before [] db db' room logged h =
      fhs-Restores limit before db db' (sym (ap (fhs_or db.fhs) h)) (room, logged)
  undo_writes-Restores limit lock_set before (w ∷ write_set) db db' room
        (between, inside, logged, (logs, others)) h =
      let (mid, e, rest) =
        bind_some (undo_write services lock_set w db) (undo_writes services lock_set write_set) db'
          h in
      let (room', same) =
        bind_all (Restores limit between) (db.tabs w.tab_name)
          (λ tab. undo_tuple services lock_set tab w.tab_name w.rid db w.wtype w.tuple w.tuple_old)
          mid
          (λ tab _ e'.
            undo_tuple-Restores services limit w.tab_name w.rid db between room inside others
              lock_set tab w.wtype w.tuple w.tuple_old mid logs e')
          e in
      undo_writes-Restores limit lock_set before write_set mid db' room'
        (IsLogged-Same limit before write_set between (records mid) logged same) rest

  finish-fhs :
      {D : Type 0} (state : TransactionState) (log : ℤ → LogRecord) (txn : Txn)
      (logging : Option (LogManager × Disk D)) (db : Database L Ix)
      → ((finish services state log txn logging db).2.fhs ≡ db.fhs)
        × ((finish services state log txn logging db).0.locking.state ≡ state)
        × ((finish services state log txn logging db).0.locking.lock_set ≡ [])
        × ((finish services state log txn logging db).0.write_set ≡ txn.write_set)
  unfolding finish log_end set_state
  finish-fhs state log txn none db = (refl, refl, refl, refl)
  finish-fhs state log txn (some (log_manager, disk)) db = (refl, refl, refl, refl)

  -- The tables of the write set are there, and have no index.
  abbrev pub HaveNoIndex : (List ℕ → Option TabMeta) → List WriteRecord → Type 0
  HaveNoIndex tabs [] = Unit {0}
  HaveNoIndex tabs (w ∷ write_set) =
      ((tab : TabMeta) × (tabs w.tab_name ≡ some tab) × (tab.indexes ≡ []))
      × HaveNoIndex tabs write_set

  undo_tuple-some :
      (lock_set : List LockDataId) (tab : TabMeta) (name : List ℕ) (rid : Rid) (db : Database L Ix)
      (wtype : WType) (tuple old before after : Option (List ℕ))
      → Logs wtype tuple old before after
      → tab.indexes ≡ []
      → (db' : Database L Ix) × (undo_tuple services lock_set tab name rid db wtype tuple old
          ≡ some db')
        × (db'.tabs ≡ db.tabs)
  unfolding undo_tuple undo_indexes set_file
  undo_tuple-some lock_set tab name rid db WType.insert_tuple none old before after (t, e, _, _)
        none_there =
      absurd (cc)
  undo_tuple-some lock_set tab name rid db WType.insert_tuple (some tuple) old before after logs
        none_there =
      (set_file services db name (delete_record (db.fhs name) rid none), rw none_there refl, refl)
  undo_tuple-some lock_set tab name rid db WType.delete_tuple none old before after (t, e, _, _)
        none_there =
      absurd (cc)
  undo_tuple-some lock_set tab name rid db WType.delete_tuple (some tuple) old before after logs
        none_there =
      (
        set_file services db name (insert_record_at (db.fhs name) rid tuple),
        rw none_there refl,
        refl,
      )
  undo_tuple-some lock_set tab name rid db WType.update_tuple none old before after
        (t, t', e, _, _, _) none_there =
      absurd (cc)
  undo_tuple-some lock_set tab name rid db WType.update_tuple (some tuple) none before after
        (t, t', _, e, _, _) none_there =
      absurd (cc)
  undo_tuple-some lock_set tab name rid db WType.update_tuple (some tuple) (some old) before after
        logs none_there =
      (
        set_file services db name (update_record (db.fhs name) rid old none),
        rw none_there refl,
        refl,
      )

  undo_writes-some :
      (limit : List ℕ → ℕ) (lock_set : List LockDataId) (before after : Records)
      (write_set : List WriteRecord) (db : Database L Ix)
      → IsLogged limit before write_set after
      → HaveNoIndex db.tabs write_set
      → (db' : Database L Ix) × (undo_writes services lock_set write_set db ≡ some db')
  unfolding undo_writes undo_write
  undo_writes-some limit lock_set before after [] db logged no_index = (db, refl)
  undo_writes-some limit lock_set before after (w ∷ write_set) db
        (between, inside, logged, (logs, others)) ((tab, e, no_index), rest) =
      let (mid, e', same) =
        undo_tuple-some lock_set tab w.tab_name w.rid db w.wtype w.tuple w.tuple_old _ _ logs
          no_index in
      let (db', e'') =
        undo_writes-some limit lock_set before between write_set mid logged
          (subst (λ tabs. HaveNoIndex tabs write_set) (sym same) rest) in
      (db', rw (e, e') e'')

  -- What `abort` promises: the tables hold the records that the transaction found, its state is that
  -- of an aborted one, and it has neither writes nor locks left.
  abbrev pub RolledBack :
      {D : Type 0}
      → (List ℕ → ℕ)
      → Records
      → Txn × Option (LogManager × Disk D) × Database L Ix
      → Type 0
  RolledBack limit before result =
      Restores limit before result.2
      × (result.0.locking.state ≡ TransactionState.aborted)
      × (result.0.locking.lock_set ≡ [])
      × (result.0.write_set ≡ [])

  -- Where the write set of a transaction logs what it did to the files, in slots that these have
  -- room for, `abort` rolls back, if it returns; and it returns where the tables have no index.
  -- That it rolls back means that every table holds the records that the transaction found, and
  -- that the transaction is aborted, with an empty write set and without locks.
  pub abort-RolledBack :
      {D : Type 0} (limit : List ℕ → ℕ) (before : Records) (txn : Txn)
      (logging : Option (LogManager × Disk D)) (db : Database L Ix)
      → AreRoomy limit db
      → IsLogged limit before txn.write_set (records db)
      → ((result : Txn × Option (LogManager × Disk D) × Database L Ix)
          → abort services txn logging db ≡ some result
          → RolledBack limit before result)
        × (HaveNoIndex db.tabs txn.write_set
            → (result : Txn × Option (LogManager × Disk D) × Database L Ix) × (abort services txn
                  logging db
                ≡ some result))
  unfolding abort
  abort-RolledBack limit before txn logging db room logged =
      let lock_set = txn.locking.lock_set in
      let end =
        finish services TransactionState.aborted abort_record (record txn { write_set = [] })
          logging in
      (
        λ result h.
            bind_all (RolledBack limit before) (undo_writes services lock_set txn.write_set db)
              (λ undone. some (end undone)) result
              (λ undone e e'.
                let (fhs, state, locks, writes) =
                  finish-fhs TransactionState.aborted abort_record (record txn { write_set = [] })
                    logging undone in
                subst (RolledBack limit before) (some_injective (end undone) result e') (
                  fhs-Restores limit before undone (end undone).2 fhs (
                      undo_writes-Restores limit lock_set before txn.write_set db undone room logged
                        e),
                  state,
                  locks,
                  writes,
                ))
              h,
        λ no_index.
            let (undone, e) =
              undo_writes-some limit lock_set before (records db) txn.write_set db logged
                no_index in
            (end undone, rw e refl),
      )
