-- ===== src/Execution/Update.antt =====
-- UpdateExecutor of src/execution/executor_update.h, from its `Next` on; the constructor takes the
-- lock of the table. The conditions are a test that may throw. What `insert_entry` throws is taken
-- to be the error that the key exists; it leaves the tree as it was.
pub mod Logged
use grmdb.Base.{ℕ, List, [], ◌∷◌, ◌++◌, Bool, true, false, Option, none, some, if◌then◌else◌, ◌>>=◌}
use grmdb.Base.Int.{ℤ}
use grmdb.Defs.{Rid}
use grmdb.System.Meta.{ColMeta, IndexMeta, TabMeta, same_name, find_col, get_index_name}
use grmdb.Record.File.{RmFile, get_record, update_record}
use grmdb.Recovery.LogRecord.{update_record as update_log_record, serialize_update}
use grmdb.Transaction.Defs.{TransactionState}
use grmdb.Transaction.Manager.{
  Txn, WType, WriteRecord, Database, Services, IndexHandle, set_file, index_key,
  append_write_record, set_state, write_at,
}
use grmdb.Execution.Value.{TabCol, Value, Floats, init_raw}
use grmdb.Execution.Change.{
  Session, Outcome, done, threw, and_then, with_value, try_catch, RecordLocks, read_tuple, set_tree,
  place_of, log_change,
}

pub record SetClause (F : Type 0) : Type 0 where
  pub lhs : TabCol
  pub rhs : Value F

module _ {L Ix F : Type 0} (services : Services L Ix) (floats : Floats F) (tab : TabMeta) where
  -- The new record; `none` is an exception, or a column that is not there.
  unfoldable pub set_columns : List (SetClause F) → List ℕ → Option (List ℕ)
  unfolding find_col init_raw
  set_columns [] new_rec = some new_rec
  set_columns (clause ∷ clauses) new_rec =
      find_col (λ col. same_name col.name clause.lhs.col_name) tab.cols >>= (λ col_meta.
        init_raw floats (services.raw col_meta.len) col_meta.len clause.rhs
        >>= (λ raw. set_columns clauses (write_at new_rec col_meta.offset raw)))

module _ {L Ix D F : Type 0} (services : Services L Ix) (locks : RecordLocks L Ix)
    (floats : Floats F) (tab : TabMeta) (tab_name : List ℕ) (fd : ℤ) (test : List ℕ → Option Bool)
    (set_clauses : List (SetClause F)) where
  -- After the exception: the old keys go back into the indexes up to the one that threw.
  unfoldable pub put_back :
      Session L Ix D → Rid → List ℕ → List IndexMeta → Outcome (Session L Ix D)
  unfolding set_tree index_key get_index_name
  put_back s rid old_rec [] = done s
  put_back s rid old_rec (index ∷ indexes) =
      let ix_name = get_index_name tab_name index.cols in
      with_value (s.db.ihs ix_name) s (λ ih.
        with_value (index_key services.raw tab index old_rec) s (λ key.
          with_value (services.insert_entry ih.tree key rid) s
            (λ tree. put_back (set_tree services locks s ix_name ih tree) rid old_rec indexes)))

  -- The handler, which throws in its turn.
  unfoldable pub constraint_violated :
      Session L Ix D → Rid → List ℕ → List IndexMeta → Outcome (Session L Ix D)
  unfolding put_back set_state
  constraint_violated s rid old_rec indexes =
      and_then (put_back s rid old_rec indexes)
        (λ s'. threw (record s' { txn = set_state s'.txn TransactionState.aborted }))

  -- The indexes from one on, with those in front of it.
  unfoldable pub update_index_entries :
      Session L Ix D
      → Rid
      → List ℕ
      → List ℕ
      → List IndexMeta
      → List IndexMeta
      → Outcome (Session L Ix D)
  unfolding set_tree index_key get_index_name constraint_violated
  update_index_entries s rid old_rec new_rec passed [] = done s
  update_index_entries s rid old_rec new_rec passed (index ∷ indexes) =
      let ix_name = get_index_name tab_name index.cols in
      with_value (s.db.ihs ix_name) s (λ ih.
        with_value (index_key services.raw tab index old_rec) s (λ old_key.
          with_value (index_key services.raw tab index new_rec) s (λ new_key.
            with_value (services.delete_entry ih.tree old_key) s (λ tree.
              try_catch (services.insert_entry tree new_key rid)
                (constraint_violated (set_tree services locks s ix_name ih tree) rid old_rec
                  (passed ++ index ∷ []))
                (λ tree'.
                  update_index_entries (set_tree services locks s ix_name ih tree') rid old_rec
                    new_rec (passed ++ index ∷ []) indexes)))))

  unfoldable pub store_updated : Session L Ix D → Rid → List ℕ → List ℕ → Session L Ix D
  unfolding set_file update_record append_write_record
  store_updated s rid old_rec new_rec = record s {
    db =
        set_file services s.db tab_name
          (update_record (s.db.fhs tab_name) rid new_rec (some s.log_manager.global_lsn));
    txn = append_write_record s.txn (record {
      wtype = WType.update_tuple;
      tab_name = tab_name;
      rid = rid;
      tuple = some new_rec;
      tuple_old = some old_rec;
    });
  }

  unfoldable pub log_update : Session L Ix D → Rid → List ℕ → List ℕ → Session L Ix D
  unfolding log_change place_of update_log_record serialize_update
  log_update s rid old_rec new_rec =
      let place = place_of services locks s tab_name rid in
      let log = update_log_record s.txn.locking.txn_id s.txn.prev_lsn old_rec new_rec place in
      log_change services locks s log.header.log_tot_len
        (λ lsn. serialize_update (record log { header = record (log.header) { lsn = lsn } }))

  -- What is done with a record for which the conditions hold.
  unfoldable pub update_held : Session L Ix D → Rid → List ℕ → Bool → Outcome (Session L Ix D)
  unfolding set_columns update_index_entries store_updated log_update
  update_held s rid old_rec false = done s
  update_held s rid old_rec true =
      with_value (set_columns services floats tab set_clauses old_rec) s (λ new_rec.
        and_then (update_index_entries s rid old_rec new_rec [] tab.indexes)
          (λ s'. done (log_update (store_updated s' rid old_rec new_rec) rid old_rec new_rec)))

  -- A turn of the loop.
  unfoldable pub update_one : Session L Ix D → Rid → Outcome (Session L Ix D)
  unfolding read_tuple get_record update_held
  update_one s rid =
      let tuple = (get_record (s.db.fhs tab_name) rid).0 in
      and_then (read_tuple services locks s tab_name fd rid)
        (λ s'. with_value (test tuple) s' (λ held. update_held s' rid tuple held))

  unfoldable pub update_all : Session L Ix D → List Rid → Outcome (Session L Ix D)
  unfolding update_one
  update_all s [] = done s
  update_all s (rid ∷ rids) = and_then (update_one s rid) (λ s'. update_all s' rids)
