-- ===== src/Transaction/Manager/Rollback.antt =====
-- What the undo of a write leaves in the file of its table, whatever the indexes do.
use grmdb.Base.{
  ◌>>=◌, bind_some, bind_all, ℕ, ◌<◌, ◌≡◌, ◌≢◌, sym, ap, subst, ◌∙◌, ◌⊎◌, List, [], ◌∷◌, true,
  Option, none, some, if◌then◌else◌, arith,
}
use grmdb.Base.Int.{ℤ}
use grmdb.Defs.{Rid}
use grmdb.System.Meta.{IndexMeta, TabMeta, same_name, get_index_name}
use grmdb.Record.Bitmap.{is_set}
use grmdb.Record.File.{RmFile, page_at, slot_of, delete_record, insert_record_at, update_record}
use grmdb.Record.File.Contents.{record_at, Writes, update_record-Writes}
use grmdb.Record.File.Room.{
  IsRoomy, delete_record-empties, insert_record_at-stores, update_record-IsRoomy,
}
use grmdb.Transaction.Defs.{LockDataId}
use grmdb.Transaction.Manager.{
  WType, Database, Services, set_file, set_index, calculate_gaps, on_index, on_indexes,
  undo_indexes, undo_tuple,
}
use grmdb.Transaction.Manager.Logged.{
  Records, Logs, Same, records, AreRoomy, set_file-Writes, set_file-AreRoomy,
}

abbrev pub fhs_or : {L Ix : Type 0} → (List ℕ → RmFile) → Option (Database L Ix) → List ℕ → RmFile
fhs_or fhs none = fhs
fhs_or fhs (some db) = db.fhs

-- The files have room, and the records are what they should be.
abbrev pub Restores : {L Ix : Type 0} → (List ℕ → ℕ) → Records → Database L Ix → Type 0
Restores limit target db = AreRoomy limit db × Same target (records db)

pub fhs-Restores :
    {L Ix : Type 0} (limit : List ℕ → ℕ) (target : Records) (db db' : Database L Ix)
    → db'.fhs ≡ db.fhs
    → Restores limit target db
    → Restores limit target db'
fhs-Restores limit target db db' e =
    subst
      (λ fhs.
        ((name : List ℕ) → IsRoomy (limit name) (fhs name))
        × ((name : List ℕ) (p : ℤ) (i : ℕ) → record_at (fhs name) p i ≡ target name p i))
      (sym e)

module _ {L Ix : Type 0} (services : Services L Ix) where
  -- The indexes do not touch the files.
  on_index-fhs :
      (name : List ℕ) (change : Ix → IndexMeta → Option Ix) (index : IndexMeta)
      (db db' : Database L Ix)
      → on_index services name change db index ≡ some db'
      → db'.fhs ≡ db.fhs
  unfolding on_index set_index
  on_index-fhs name change index db db' h =
      let ix_name = get_index_name name index.cols in
      let store = λ (tree : Ix). some (set_index services db ix_name tree) in
      bind_all (λ x. x.fhs ≡ db.fhs) (db.ihs ix_name) (λ ih. change ih.tree index >>= store) db'
        (λ ih _ e.
          bind_all (λ x. x.fhs ≡ db.fhs) (change ih.tree index) store db'
            (λ tree _ e'. sym (ap (fhs_or db.fhs) e')) e)
        h

  on_indexes-fhs :
      (name : List ℕ) (change : Ix → IndexMeta → Option Ix) (indexes : List IndexMeta)
      (db db' : Database L Ix)
      → on_indexes services name change indexes db ≡ some db'
      → db'.fhs ≡ db.fhs
  unfolding on_indexes
  on_indexes-fhs name change [] db db' h = sym (ap (fhs_or db.fhs) h)
  on_indexes-fhs name change (index ∷ indexes) db db' h =
      let (mid, e, rest) =
        bind_some (on_index services name change db index)
          (λ x. on_indexes services name change indexes x) db' h in
      on_indexes-fhs name change indexes mid db' rest ∙ on_index-fhs name change index db mid e

  undo_indexes-fhs :
      (lock_set : List LockDataId) (indexes : List IndexMeta) (name : List ℕ)
      (change : Ix → IndexMeta → Option Ix) (db db' : Database L Ix)
      → undo_indexes services lock_set indexes name change db ≡ some db'
      → db'.fhs ≡ db.fhs
  unfolding undo_indexes
  undo_indexes-fhs lock_set [] name change db db' h = sym (ap (fhs_or db.fhs) h)
  undo_indexes-fhs lock_set (index ∷ indexes) name change db db' h =
      bind_all (λ x. x.fhs ≡ db.fhs) (on_indexes services name change (index ∷ indexes) db)
        (λ mid. some (record mid { locks = calculate_gaps services lock_set mid.locks })) db'
        (λ mid e e'.
          sym (ap (fhs_or db.fhs) e') ∙ on_indexes-fhs name change (index ∷ indexes) db mid e)
        h

  module _ (limit : List ℕ → ℕ) (name : List ℕ) (rid : Rid) (db : Database L Ix) (target : Records)
      (room : AreRoomy limit db) (inside : slot_of rid < limit name)
      (outside : (other : List ℕ) (p : ℤ) (i : ℕ)
        → (other ≢ name) ⊎ ((p ≢ rid.page_no) ⊎ (i ≢ slot_of rid))
        → records db other p i ≡ target other p i) where
    abbrev file : RmFile
    file = db.fhs name

    -- A file in which the slot has been put back.
    put_back :
        (changed : RmFile) (o : Option (List ℕ))
        → IsRoomy (limit name) changed
        → Writes file changed rid.page_no (slot_of rid) o
        → target name rid.page_no (slot_of rid) ≡ o
        → Restores limit target (set_file services db name changed)
    put_back changed o this writes at = (
      set_file-AreRoomy services limit db name changed this room,
      set_file-Writes services db name changed rid.page_no (slot_of rid) o target writes at outside,
    )

    there :
        (t : List ℕ)
        → records db name rid.page_no (slot_of rid) ≡ some t
        → is_set (page_at file rid.page_no).bitmap (slot_of rid) ≡ true
    there t at = ground (arith, at)

    deleted_back :
        target name rid.page_no (slot_of rid) ≡ none
        → Restores limit target (set_file services db name (delete_record file rid none))
    deleted_back at =
        let (roomy, writes) = delete_record-empties (limit name) file rid (room name) inside none in
        put_back (delete_record file rid none) none roomy writes at

    inserted_back :
        (t : List ℕ)
        → target name rid.page_no (slot_of rid) ≡ some t
        → Restores limit target (set_file services db name (insert_record_at file rid t))
    inserted_back t at =
        let (roomy, writes) = insert_record_at-stores (limit name) file rid (room name) inside t in
        put_back (insert_record_at file rid t) (some t) roomy writes at

    updated_back :
        (t t' : List ℕ)
        → records db name rid.page_no (slot_of rid) ≡ some t'
        → target name rid.page_no (slot_of rid) ≡ some t
        → Restores limit target (set_file services db name (update_record file rid t none))
    updated_back t t' now at =
        put_back (update_record file rid t none) (some t)
          (update_record-IsRoomy (limit name) file rid (room name) inside t none)
          (update_record-Writes file rid t none (there t' now)) at

    -- One record of the write set puts its slot back, if no index throws.
    pub undo_tuple-Restores :
        (lock_set : List LockDataId) (tab : TabMeta) (wtype : WType) (tuple old : Option (List ℕ))
        (db' : Database L Ix)
        → Logs wtype tuple old
            (target name rid.page_no (slot_of rid))
            (records db name rid.page_no (slot_of rid))
        → undo_tuple services lock_set tab name rid db wtype tuple old ≡ some db'
        → Restores limit target db'
    unfolding undo_tuple set_file
    undo_tuple-Restores lock_set tab WType.insert_tuple none old db' (t, e, _, _) h = absurd (cc)
    undo_tuple-Restores lock_set tab WType.insert_tuple (some tuple) old db' (t, e, at, _) h =
        let undone = set_file services db name (delete_record file rid none) in
        fhs-Restores limit target undone db'
          (undo_indexes-fhs lock_set tab.indexes name _ undone db' h) (deleted_back at)
    undo_tuple-Restores lock_set tab WType.delete_tuple none old db' (t, e, _, _) h = absurd (cc)
    undo_tuple-Restores lock_set tab WType.delete_tuple (some tuple) old db' (t, e, at, _) h =
        let undone = set_file services db name (insert_record_at file rid tuple) in
        fhs-Restores limit target undone db'
          (undo_indexes-fhs lock_set tab.indexes name _ undone db' h)
          (inserted_back tuple (at ∙ sym e))
    undo_tuple-Restores lock_set tab WType.update_tuple none old db' (t, t', e, _, _, _) h =
        absurd (cc)
    undo_tuple-Restores lock_set tab WType.update_tuple (some tuple) none db' (t, t', _, e, _, _)
          h =
        absurd (cc)
    undo_tuple-Restores lock_set tab WType.update_tuple (some tuple) (some old) db'
          (t, t', _, e, at, now) h =
        let undone = λ (d : Database L Ix).
          set_file services d name (update_record (d.fhs name) rid old none) in
        bind_all (Restores limit target) _ (λ mid. some (undone mid)) db'
          (λ mid e' e''.
            fhs-Restores limit target (undone db) db'
              (sym (ap (fhs_or db.fhs) e'')
                ∙ ap
                    (λ fhs. λ other.
                      if same_name name other
                      then update_record (fhs name) rid old none
                      else fhs other)
                    (undo_indexes-fhs lock_set tab.indexes name _ db mid e'))
              (updated_back old t' now (at ∙ sym e)))
          h
