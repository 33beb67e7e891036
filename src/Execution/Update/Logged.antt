-- ===== src/Execution/Update/Logged.antt =====
-- An update statement, also one that throws on its way, can be rolled back.
use grmdb.Base.{ℕ, ◌<◌, ◌≡◌, refl, sym, subst, List, [], ◌∷◌, ◌++◌, Bool, true, false, Option, some}
use grmdb.Base.Int.{ℤ}
use grmdb.Defs.{Rid}
use grmdb.System.Meta.{IndexMeta, TabMeta, get_index_name}
use grmdb.Record.File.{slot_of, get_record, update_record}
use grmdb.Record.File.Contents.{update_record-Writes}
use grmdb.Record.File.Room.{update_record-IsRoomy}
use grmdb.Transaction.Manager.{IndexHandle, WType, Services, append_write_record, set_state}
use grmdb.Transaction.Manager.Logged.{Records}
use grmdb.Execution.Value.{Floats}
use grmdb.Execution.Change.{Session, state_of, RecordLocks, log_change, set_tree}
use grmdb.Execution.Change.Logged.{
  Leaves, and_then-Leaves, state_of-Leaves, with_value-Leaves, try_catch-Leaves, IsSound, IsReady,
  read_tuple-Leaves, write-IsReady,
}
use grmdb.Execution.Change.Targets.{
  get_record-reads, record_at-is_set, Elsewhere, rids_of, AreTargets,
}
use grmdb.Execution.Update.{
  SetClause, put_back, constraint_violated, update_index_entries, store_updated, log_update,
  update_held, update_one, update_all,
}

module _ {L Ix D F : Type 0} (services : Services L Ix) (locks : RecordLocks L Ix)
    (limit : List ℕ → ℕ) (before : Records) (floats : Floats F) (tab : TabMeta) (tab_name : List ℕ)
    (fd : ℤ) (test : List ℕ → Option Bool) (set_clauses : List (SetClause F)) where
  abbrev Sound : Session L Ix D → Type 0
  Sound = IsSound services locks limit before tab_name

  abbrev Ready : List (Rid × List ℕ) → Session L Ix D → Type 0
  Ready = IsReady services locks limit before tab_name

  put_back-Leaves :
      (targets : List (Rid × List ℕ)) (indexes : List IndexMeta) (s : Session L Ix D) (rid : Rid)
      (t : List ℕ)
      → Ready targets s
      → Leaves
          (Ready targets)
          Sound
          (put_back services locks floats tab tab_name fd test set_clauses s rid t indexes)
  unfolding put_back set_tree
  put_back-Leaves targets [] s rid t ready = ready
  put_back-Leaves targets (index ∷ indexes) s rid t ready =
      with_value-Leaves (Ready targets) Sound _ s _ ready.0 (λ (ih : IndexHandle Ix) _.
        with_value-Leaves (Ready targets) Sound _ s _ ready.0 (λ key _.
          with_value-Leaves (Ready targets) Sound (services.insert_entry ih.tree key rid) s _
            ready.0 (λ tree _. put_back-Leaves targets indexes _ rid t ready)))

  update_index_entries-Leaves :
      (targets : List (Rid × List ℕ)) (passed indexes : List IndexMeta) (s : Session L Ix D)
      (rid : Rid) (t t' : List ℕ)
      → Ready targets s
      → Leaves (Ready targets) Sound (
          update_index_entries services locks floats tab tab_name fd test set_clauses s rid t t'
            passed indexes)
  unfolding update_index_entries constraint_violated set_tree set_state
  update_index_entries-Leaves targets passed [] s rid t t' ready = ready
  update_index_entries-Leaves targets passed (index ∷ indexes) s rid t t' ready =
      with_value-Leaves (Ready targets) Sound _ s _ ready.0 (λ (ih : IndexHandle Ix) _.
        with_value-Leaves (Ready targets) Sound _ s _ ready.0 (λ old_key _.
          with_value-Leaves (Ready targets) Sound _ s _ ready.0 (λ new_key _.
            with_value-Leaves (Ready targets) Sound (services.delete_entry ih.tree old_key) s _
              ready.0
              (λ tree _.
                try_catch-Leaves (Ready targets) Sound (services.insert_entry tree new_key rid) _ _
                  (and_then-Leaves (Ready targets) (Ready targets) Sound _ _
                    (put_back-Leaves targets (passed ++ index ∷ [])
                      (set_tree services locks s (get_index_name tab_name index.cols) ih tree) rid t
                      ready)
                    (λ s' ready'. ready'.0))
                  (λ tree'.
                    update_index_entries-Leaves targets (passed ++ index ∷ []) indexes
                      (set_tree services locks s (get_index_name tab_name index.cols) ih tree') rid
                      t t' ready)))))

  store_updated-Ready :
      (targets : List (Rid × List ℕ)) (s : Session L Ix D) (rid : Rid) (t t' : List ℕ)
      → Ready ((rid, t) ∷ targets) s
      → slot_of rid < limit tab_name
      → Elsewhere rid targets
      → Ready targets
          (store_updated services locks floats tab tab_name fd test set_clauses s rid t t')
  unfolding store_updated append_write_record
  store_updated-Ready targets s rid t t' ready inside apart =
      let ((room, logged), (at, held)) = ready in
      let file = s.db.fhs tab_name in
      let lsn = some s.log_manager.global_lsn in
      write-IsReady services locks limit before tab_name targets s rid
        (update_record file rid t' lsn) t WType.update_tuple (some t') (some t) (some t') ready
        inside apart (t, t', refl, refl, refl, refl)
        (update_record-IsRoomy (limit tab_name) file rid (room tab_name) inside t' lsn)
        (update_record-Writes file rid t' lsn (record_at-is_set file rid t at))

  update_held-Leaves :
      (targets : List (Rid × List ℕ)) (s : Session L Ix D) (rid : Rid) (t : List ℕ) (held : Bool)
      → Ready ((rid, t) ∷ targets) s
      → slot_of rid < limit tab_name
      → Elsewhere rid targets
      → Leaves
          (Ready targets)
          Sound
          (update_held services locks floats tab tab_name fd test set_clauses s rid t held)
  unfolding update_held log_update log_change
  update_held-Leaves targets s rid t false ready inside apart = (ready.0, ready.1.1)
  update_held-Leaves targets s rid t true ready inside apart =
      with_value-Leaves (Ready targets) Sound _ s _ ready.0 (λ t' _.
        and_then-Leaves (Ready ((rid, t) ∷ targets)) (Ready targets) Sound _ _
          (update_index_entries-Leaves ((rid, t) ∷ targets) [] tab.indexes s rid t t' ready)
          (λ s' ready'. store_updated-Ready targets s' rid t t' ready' inside apart))

  update_one-Leaves :
      (targets : List (Rid × List ℕ)) (s : Session L Ix D) (rid : Rid) (t : List ℕ)
      → Ready ((rid, t) ∷ targets) s
      → slot_of rid < limit tab_name
      → Elsewhere rid targets
      → Leaves
          (Ready targets)
          Sound
          (update_one services locks floats tab tab_name fd test set_clauses s rid)
  unfolding update_one
  update_one-Leaves targets s rid t ready inside apart =
      let tuple = (get_record (s.db.fhs tab_name) rid).0 in
      let tuple_is : t ≡ tuple = sym (get_record-reads (s.db.fhs tab_name) rid t ready.1.0) in
      let ready_tuple : Ready ((rid, tuple) ∷ targets) s =
        subst (λ x. Ready ((rid, x) ∷ targets) s) tuple_is ready in
      and_then-Leaves (Ready ((rid, tuple) ∷ targets)) (Ready targets) Sound _ _
        (read_tuple-Leaves services locks limit before tab_name ((rid, tuple) ∷ targets) s fd rid
          ready_tuple)
        (λ s' ready'.
          with_value-Leaves (Ready targets) Sound (test tuple) s' _ ready'.0
            (λ held _. update_held-Leaves targets s' rid tuple held ready' inside apart))

  update_all-Leaves :
      (targets : List (Rid × List ℕ)) (s : Session L Ix D)
      → Ready targets s
      → AreTargets (limit tab_name) targets
      → Leaves Sound Sound
          (update_all services locks floats tab tab_name fd test set_clauses s (rids_of targets))
  unfolding update_all
  update_all-Leaves [] s ready apart = ready.0
  update_all-Leaves ((rid, t) ∷ targets) s ready (inside, apart, aparts) =
      and_then-Leaves (Ready targets) Sound Sound _ _
        (update_one-Leaves targets s rid t ready inside apart)
        (λ s' ready'. update_all-Leaves targets s' ready' aparts)

  -- Where the write set of a transaction logs what it did to the tables, it still does after an
  -- update statement on records that are there, in slots of their own, whether the statement
  -- returns or throws on its way, also from its handler of a violated constraint, and the tables
  -- keep their room: what `abort` asks for.
  pub update_all-IsSound :
      (targets : List (Rid × List ℕ)) (s : Session L Ix D)
      → IsReady services locks limit before tab_name targets s
      → AreTargets (limit tab_name) targets
      → IsSound services locks limit before tab_name (
          state_of
            (update_all services locks floats tab tab_name fd test set_clauses s (rids_of targets)))
  update_all-IsSound targets s ready apart =
      state_of-Leaves Sound _ (update_all-Leaves targets s ready apart)
