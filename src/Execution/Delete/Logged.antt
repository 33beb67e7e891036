-- ===== src/Execution/Delete/Logged.antt =====
-- A delete statement, also one that throws on its way, can be rolled back.
use grmdb.Base.{ℕ, ◌<◌, ◌≡◌, refl, sym, subst, List, [], ◌∷◌, Bool, true, false, Option, none, some}
use grmdb.Base.Int.{ℤ}
use grmdb.Defs.{Rid}
use grmdb.System.Meta.{IndexMeta, TabMeta}
use grmdb.Record.File.{slot_of, get_record, delete_record}
use grmdb.Record.File.Room.{delete_record-empties}
use grmdb.Transaction.Manager.{IndexHandle, WType, Services, set_file, append_write_record}
use grmdb.Transaction.Manager.Logged.{Records}
use grmdb.Execution.Change.{Session, state_of, RecordLocks, log_change, set_tree}
use grmdb.Execution.Change.Logged.{
  Leaves, and_then-Leaves, state_of-Leaves, with_value-Leaves, IsSound, IsReady, locked-Leaves,
  read_tuple-Leaves, write-IsReady,
}
use grmdb.Execution.Change.Targets.{get_record-reads, Elsewhere, rids_of, AreTargets}
use grmdb.Execution.Delete.{
  delete_held, delete_index_entry, delete_index_entries, log_delete, delete_one, delete_all,
}

module _ {L Ix D : Type 0} (services : Services L Ix) (locks : RecordLocks L Ix)
    (limit : List ℕ → ℕ) (before : Records) (tab : TabMeta) (tab_name : List ℕ) (fd : ℤ)
    (test : List ℕ → Option Bool) (named : tab.name ≡ tab_name) where
  abbrev Sound : Session L Ix D → Type 0
  Sound = IsSound services locks limit before tab_name

  abbrev Ready : List (Rid × List ℕ) → Session L Ix D → Type 0
  Ready = IsReady services locks limit before tab_name

  delete_held-Ready :
      (targets : List (Rid × List ℕ)) (s : Session L Ix D) (rid : Rid) (t : List ℕ) (held : Bool)
      → Ready ((rid, t) ∷ targets) s
      → slot_of rid < limit tab_name
      → Elsewhere rid targets
      → Ready targets (delete_held services locks tab tab_name fd test s rid t held)
  unfolding delete_held append_write_record
  delete_held-Ready targets s rid t false ready inside apart = (ready.0, ready.1.1)
  delete_held-Ready targets s rid t true ready inside apart =
      let ((room, logged), held) = ready in
      let file = s.db.fhs tab_name in
      let lsn = some s.log_manager.global_lsn in
      let (room', writes) =
        delete_record-empties (limit tab_name) file rid (room tab_name) inside lsn in
      subst
        (λ name. Ready targets (record s {
          db = set_file services s.db tab_name (delete_record file rid lsn);
          txn = append_write_record s.txn (record {
            wtype = WType.delete_tuple;
            tab_name = name;
            rid = rid;
            tuple = some t;
            tuple_old = none;
          });
        }))
        (sym named)
        (write-IsReady services locks limit before tab_name targets s rid
          (delete_record file rid lsn) t WType.delete_tuple (some t) none none ready inside apart
          (t, refl, refl, refl) room' writes)

  delete_index_entry-Leaves :
      (targets : List (Rid × List ℕ)) (s : Session L Ix D) (rid : Rid) (t : List ℕ)
      (index : IndexMeta)
      → Ready targets s
      → Leaves
          (Ready targets)
          Sound
          (delete_index_entry services locks tab tab_name fd test s rid t index)
  unfolding delete_index_entry set_tree
  delete_index_entry-Leaves targets s rid t index ready =
      with_value-Leaves (Ready targets) Sound _ s _ ready.0 (λ (ih : IndexHandle Ix) _.
        with_value-Leaves (Ready targets) Sound _ s _ ready.0 (λ old_key _.
          and_then-Leaves (Ready targets) (Ready targets) Sound _ _
            (locked-Leaves services locks limit before tab_name targets s
              (locks.lock_gap s.db.locks s.txn.locking rid fd old_key index ih.tree) ready)
            (λ s' ready'.
              with_value-Leaves (Ready targets) Sound (services.delete_entry ih.tree old_key) s' _
                ready'.0 (λ tree _. ready'))))

  delete_index_entries-Leaves :
      (targets : List (Rid × List ℕ)) (indexes : List IndexMeta) (s : Session L Ix D) (rid : Rid)
      (t : List ℕ)
      → Ready targets s
      → Leaves
          (Ready targets)
          Sound
          (delete_index_entries services locks tab tab_name fd test s rid t indexes)
  unfolding delete_index_entries
  delete_index_entries-Leaves targets [] s rid t ready = ready
  delete_index_entries-Leaves targets (index ∷ indexes) s rid t ready =
      and_then-Leaves (Ready targets) (Ready targets) Sound _ _
        (delete_index_entry-Leaves targets s rid t index ready)
        (λ s' ready'. delete_index_entries-Leaves targets indexes s' rid t ready')

  delete_one-Leaves :
      (targets : List (Rid × List ℕ)) (s : Session L Ix D) (rid : Rid) (t : List ℕ)
      → Ready ((rid, t) ∷ targets) s
      → slot_of rid < limit tab_name
      → Elsewhere rid targets
      → Leaves (Ready targets) Sound (delete_one services locks tab tab_name fd test s rid)
  unfolding delete_one log_delete log_change
  delete_one-Leaves targets s rid t ready inside apart =
      let tuple = (get_record (s.db.fhs tab_name) rid).0 in
      let tuple_is : t ≡ tuple = sym (get_record-reads (s.db.fhs tab_name) rid t ready.1.0) in
      let ready_tuple : Ready ((rid, tuple) ∷ targets) s =
        subst (λ x. Ready ((rid, x) ∷ targets) s) tuple_is ready in
      and_then-Leaves (Ready ((rid, tuple) ∷ targets)) (Ready targets) Sound _ _
        (read_tuple-Leaves services locks limit before tab_name ((rid, tuple) ∷ targets) s fd rid
          ready_tuple)
        (λ s' ready'. with_value-Leaves (Ready targets) Sound (test tuple) s' _ ready'.0 (λ held _.
          and_then-Leaves (Ready targets) (Ready targets) Sound _ _
            (delete_index_entries-Leaves targets tab.indexes
              (delete_held services locks tab tab_name fd test s' rid tuple held) rid tuple
              (delete_held-Ready targets s' rid tuple held ready' inside apart))
            (λ s'' ready''. ready'')))

  delete_all-Leaves :
      (targets : List (Rid × List ℕ)) (s : Session L Ix D)
      → Ready targets s
      → AreTargets (limit tab_name) targets
      → Leaves Sound Sound (delete_all services locks tab tab_name fd test s (rids_of targets))
  unfolding delete_all
  delete_all-Leaves [] s ready apart = ready.0
  delete_all-Leaves ((rid, t) ∷ targets) s ready (inside, apart, aparts) =
      and_then-Leaves (Ready targets) Sound Sound _ _
        (delete_one-Leaves targets s rid t ready inside apart)
        (λ s' ready'. delete_all-Leaves targets s' ready' aparts)

  -- Where the write set of a transaction logs what it did to the tables, it still does after a
  -- delete statement on records that are there, in slots of their own, whether the statement
  -- returns or throws on its way, and the tables keep their room: what `abort` asks for.
  pub delete_all-IsSound :
      (targets : List (Rid × List ℕ)) (s : Session L Ix D)
      → IsReady services locks limit before tab_name targets s
      → AreTargets (limit tab_name) targets
      → IsSound services locks limit before tab_name
          (state_of (delete_all services locks tab tab_name fd test s (rids_of targets)))
  delete_all-IsSound targets s ready apart =
      state_of-Leaves Sound _ (delete_all-Leaves targets s ready apart)
