-- ===== src/Execution/Delete.antt =====
-- DeleteExecutor of src/execution/executor_delete.h, from its `Next` on; the constructor takes the
-- lock of the table. The conditions are a test that may throw.
pub mod Logged
use grmdb.Base.{ℕ, List, [], ◌∷◌, Bool, true, false, Option, none, some, if◌then◌else◌, ◌>>=◌}
use grmdb.Base.Int.{ℤ}
use grmdb.Defs.{Rid}
use grmdb.System.Meta.{IndexMeta, TabMeta, get_index_name}
use grmdb.Record.File.{RmFile, get_record, delete_record}
use grmdb.Recovery.LogRecord.{delete_record as delete_log_record, serialize_delete}
use grmdb.Transaction.Manager.{
  Txn, WType, WriteRecord, Database, Services, IndexHandle, set_file, index_key,
  append_write_record,
}
use grmdb.Execution.Change.{
  Session, Outcome, done, threw, and_then, with_value, RecordLocks, locked, read_tuple, set_tree,
  place_of, log_change,
}

module _ {L Ix D : Type 0} (services : Services L Ix) (locks : RecordLocks L Ix) (tab : TabMeta)
    (tab_name : List ℕ) (fd : ℤ) (test : List ℕ → Option Bool) where
  -- The record goes, where the conditions hold, and the write set remembers it.
  unfoldable pub delete_held : Session L Ix D → Rid → List ℕ → Bool → Session L Ix D
  unfolding set_file delete_record append_write_record
  delete_held s rid tuple false = s
  delete_held s rid tuple true = record s {
    db =
        set_file services s.db tab_name
          (delete_record (s.db.fhs tab_name) rid (some s.log_manager.global_lsn));
    txn = append_write_record s.txn (record {
      wtype = WType.delete_tuple;
      tab_name = tab.name;
      rid = rid;
      tuple = some tuple;
      tuple_old = none;
    });
  }

  -- The entry of one index, under the lock of its gap.
  unfoldable pub delete_index_entry :
      Session L Ix D → Rid → List ℕ → IndexMeta → Outcome (Session L Ix D)
  unfolding locked set_tree index_key get_index_name
  delete_index_entry s rid old_rec index =
      let ix_name = get_index_name tab_name index.cols in
      with_value (s.db.ihs ix_name) s (λ ih.
        with_value (index_key services.raw tab index old_rec) s (λ old_key.
          and_then
            (locked services locks s
              (locks.lock_gap s.db.locks s.txn.locking rid fd old_key index ih.tree))
            (λ s'.
              with_value (services.delete_entry ih.tree old_key) s'
                (λ tree. done (set_tree services locks s' ix_name ih tree)))))

  unfoldable pub delete_index_entries :
      Session L Ix D → Rid → List ℕ → List IndexMeta → Outcome (Session L Ix D)
  unfolding delete_index_entry
  delete_index_entries s rid old_rec [] = done s
  delete_index_entries s rid old_rec (index ∷ indexes) =
      and_then (delete_index_entry s rid old_rec index)
        (λ s'. delete_index_entries s' rid old_rec indexes)

  unfoldable pub log_delete : Session L Ix D → Rid → List ℕ → Session L Ix D
  unfolding log_change place_of delete_log_record serialize_delete
  log_delete s rid old_rec =
      let log =
        delete_log_record s.txn.locking.txn_id s.txn.prev_lsn old_rec
          (place_of services locks s tab_name rid) in
      log_change services locks s log.header.log_tot_len
        (λ lsn. serialize_delete (record log { header = record (log.header) { lsn = lsn } }))

  -- A turn of the loop.
  unfoldable pub delete_one : Session L Ix D → Rid → Outcome (Session L Ix D)
  unfolding read_tuple get_record delete_held delete_index_entries log_delete
  delete_one s rid =
      let tuple = (get_record (s.db.fhs tab_name) rid).0 in
      and_then (read_tuple services locks s tab_name fd rid) (λ s'.
        with_value (test tuple) s' (λ held.
          and_then (delete_index_entries (delete_held s' rid tuple held) rid tuple tab.indexes)
            (λ s''. done (log_delete s'' rid tuple))))

  unfoldable pub delete_all : Session L Ix D → List Rid → Outcome (Session L Ix D)
  unfolding delete_one
  delete_all s [] = done s
  delete_all s (rid ∷ rids) = and_then (delete_one s rid) (λ s'. delete_all s' rids)
