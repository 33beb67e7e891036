-- ===== src/Recovery/LogRecovery/Redo.antt =====
-- Redo of a record that has been redone already.
use grmdb.Base.{
  ℕ, suc, ◌-◌, ◌≡◌, refl, ap, ◌∙◌, List, true, false, ◌||◌, none, some, if_pos, arith, ltb, inl,
  inr, holds, Bool-cases, Option-cases, lookup,
}
use grmdb.Base.Int.{ℤ, incr, pos, negsuc, ltb_ℤ, ℤ_discrete}
use grmdb.Storage.Disk.{PageId, PageId_discrete}
use grmdb.Defs.{Rid}
use grmdb.Record.Page.{write_slot, insert_at, delete_in_page}
use grmdb.Record.File.{
  RmFile, RmFrame, update_frame, fetch_page_handle, unpin_dirty, stamp, insert_redo, update_redo,
  delete_redo, update_record, delete_record, set_page, page_at, slot_of, redo_hdr, unlink_if_full,
  release_if_free,
}
use grmdb.Record.File.Contents.{
  record_at, SameRecords, update_frame-SameRecords, fetch_page_handle-SameRecords,
}
use grmdb.System.Meta.{name_discrete}
use grmdb.Recovery.LogRecord.{Place, TupleLogRecord}
use grmdb.Recovery.LogRecovery.{
  LogEntry, begun, committed, aborted, updated, inserted, deleted, checkpoint_at, header_of,
  page_of, unpin_clean, at_table, redo_on, redo_record,
}

-- The LSN of a page after a change of its frame.
frame_here :
    (file : RmFile) (p : ℤ) (f : RmFrame → RmFrame)
    → (update_frame file p f).frames p ≡ f (file.frames p)
unfolding update_frame
frame_here file p f = if_pos (ℤ_discrete p p) refl (f (file.frames p)) (file.frames p)

abbrev lsn_at : RmFile → ℤ → ℤ
lsn_at file p = (file.frames p).page_lsn

lsn_at-fetch_page_handle :
    (file : RmFile) (p : ℤ) → lsn_at (fetch_page_handle file p) p ≡ lsn_at file p
unfolding fetch_page_handle
lsn_at-fetch_page_handle file p =
    ap (λ x. x.page_lsn)
      (frame_here file p (λ frame. record frame { pin_count = suc frame.pin_count }))

lsn_at-unpin_clean : (file : RmFile) (p : ℤ) → lsn_at (unpin_clean file p) p ≡ lsn_at file p
unfolding unpin_clean
lsn_at-unpin_clean file p =
    ap (λ x. x.page_lsn)
      (frame_here file p (λ frame. record frame { pin_count = frame.pin_count - 1 }))

lsn_at-unpin_dirty : (file : RmFile) (p : ℤ) → lsn_at (unpin_dirty file p) p ≡ lsn_at file p
unfolding unpin_dirty
lsn_at-unpin_dirty file p =
    ap (λ x. x.page_lsn)
      (frame_here file p (λ frame. record frame {
        pin_count = frame.pin_count - 1;
        is_dirty = frame.is_dirty || ltb 0 frame.pin_count;
      }))

lsn_at-stamp :
    (file : RmFile) (p lsn : ℤ) → lsn_at (unpin_dirty (stamp file p (some lsn)) p) p ≡ lsn
unfolding stamp
lsn_at-stamp file p lsn =
    lsn_at-unpin_dirty _ p
    ∙ ap (λ x. x.page_lsn) (frame_here file p (λ frame. record frame { page_lsn = lsn }))

lsn_at-update_record :
    (file : RmFile) (rid : Rid) (buf : List ℕ) (lsn : ℤ)
    → lsn_at (update_record file rid buf (some lsn)) rid.page_no ≡ lsn
unfolding update_record
lsn_at-update_record file rid buf lsn =
    let p = rid.page_no in
    let fetched = fetch_page_handle file p in
    lsn_at-stamp (set_page fetched p (write_slot (page_at fetched p) (slot_of rid) buf)) p lsn

lsn_at-delete_record :
    (file : RmFile) (rid : Rid) (lsn : ℤ)
    → lsn_at (delete_record file rid (some lsn)) rid.page_no ≡ lsn
unfolding delete_record
lsn_at-delete_record file rid lsn =
    let p = rid.page_no in
    let fetched = fetch_page_handle file p in
    lsn_at-stamp
      (release_if_free (set_page fetched p (delete_in_page (page_at fetched p) (slot_of rid))) p) p
      lsn

lsn_at-insert_redo :
    (file : RmFile) (log : TupleLogRecord)
    → lsn_at (insert_redo file log) log.place.rid.page_no ≡ log.header.lsn
unfolding insert_redo
lsn_at-insert_redo file log =
    let p = log.place.rid.page_no in
    let fetched = fetch_page_handle (redo_hdr file log.place) p in
    let taken = insert_at (page_at fetched p) (slot_of log.place.rid) log.value in
    let counted = record taken { num_records = incr taken.num_records } in
    lsn_at-stamp (unlink_if_full (set_page fetched p counted) p) p log.header.lsn

unpin_clean-SameRecords : (file : RmFile) (p : ℤ) → SameRecords file (unpin_clean file p)
unfolding unpin_clean
unpin_clean-SameRecords file p =
    update_frame-SameRecords file p (λ frame. record frame { pin_count = frame.pin_count - 1 })
      (λ i. refl)

ltb_ℤ-irreflexive : (a : ℤ) → ltb_ℤ a a ≡ false
ltb_ℤ-irreflexive (pos n) = ground arith
ltb_ℤ-irreflexive (negsuc n) = ground arith

module _ (get_fd : List ℕ → ℤ) (dpt : List (PageId × ℤ)) (lsn : ℤ) where
  module _ (change : RmFile → RmFile) (place : Place)
      (stamped : (file : RmFile) → lsn_at (change file) place.rid.page_no ≡ lsn) where
    abbrev page : ℤ
    page = place.rid.page_no

    abbrev again : RmFile → RmFile
    again = redo_on get_fd dpt lsn change place

    -- A page that has the LSN, or a later one, is left as it is.
    redo_on_late :
        (file : RmFile) → ltb_ℤ (lsn_at file page) lsn ≡ false → SameRecords file (again file)
    unfolding redo_on
    redo_on_late file late q i =
        let fetched = fetch_page_handle file page in
        let late' : ltb_ℤ (lsn_at fetched page) lsn ≡ false =
          rw (lsn_at-fetch_page_handle file page) late in
        elim (Option-cases (lookup PageId_discrete (page_of get_fd place) dpt)) [
          | inl clean ↦ rw (redo_on, clean) refl
          | inr (dirty, e) ↦
              rw (redo_on, e, late')
                (unpin_clean-SameRecords fetched page q i
                  ∙ fetch_page_handle-SameRecords file page q i)
        ]

    redo_on_clean :
        lookup PageId_discrete (page_of get_fd place) dpt ≡ none
        → (file : RmFile) → again file ≡ file
    unfolding redo_on
    redo_on_clean clean file = rw (redo_on, clean) refl

    redo_on_twice : (file : RmFile) → SameRecords (again file) (again (again file))
    unfolding redo_on
    redo_on_twice file q i =
        let fetched = fetch_page_handle file page in
        elim (Option-cases (lookup PageId_discrete (page_of get_fd place) dpt)) [
          | inl clean ↦ ap (λ x. record_at x q i) (redo_on_clean clean (again file))
          | inr (dirty, e) ↦ elim (Bool-cases (ltb_ℤ (lsn_at fetched page) lsn)) [
            | inr late ↦
                redo_on_late (again file)
                  (rw (redo_on, e, late) (rw (lsn_at-unpin_clean fetched page) late)) q i
            | inl early ↦
                redo_on_late (again file)
                  (rw (redo_on, e, early)
                    (rw (lsn_at-unpin_dirty (change fetched) page, stamped fetched)
                      (ltb_ℤ-irreflexive lsn)))
                  q i
          ]
        ]

  at_table_twice :
      (table : List ℕ) (change : RmFile → RmFile) (files : List ℕ → RmFile) (name : List ℕ)
      → ((file : RmFile) → SameRecords (change file) (change (change file)))
      → SameRecords
          (at_table table change files name)
          (at_table table change (at_table table change files) name)
  unfolding at_table
  at_table_twice table change files name twice q i =
      elim (Bool-cases (holds (name_discrete table name))) [
        | inl this ↦
            let itself : holds (name_discrete table table) ≡ true = ground arith in
            rw (at_table, this, itself) (twice (files table) q i)
        | inr other ↦ rw (at_table, other) refl
      ]

  -- A record that has been redone is not redone again: the second redo of a record with the number
  -- that the loop is at changes no record of any file.
  pub redo_record_twice :
      (entry : LogEntry) (files : List ℕ → RmFile) (name : List ℕ)
      → (header_of entry).lsn ≡ lsn
      → SameRecords
          (redo_record get_fd dpt lsn entry files name)
          (redo_record get_fd dpt lsn entry (redo_record get_fd dpt lsn entry files) name)
  unfolding redo_record update_redo delete_redo
  redo_record_twice (inserted log) files name e =
      at_table_twice log.place.table_name
        (redo_on get_fd dpt lsn (λ file. insert_redo file log) log.place) files name
        (redo_on_twice (λ file. insert_redo file log) log.place
          (λ file. lsn_at-insert_redo file log ∙ e))
  redo_record_twice (deleted log) files name e =
      at_table_twice log.place.table_name
        (redo_on get_fd dpt lsn (λ file. delete_redo file log) log.place) files name
        (redo_on_twice (λ file. delete_redo file log) log.place
          (λ file. lsn_at-delete_record (redo_hdr file log.place) log.place.rid log.header.lsn ∙ e))
  redo_record_twice (updated log) files name e =
      at_table_twice log.place.table_name
        (redo_on get_fd dpt lsn (λ file. update_redo file log) log.place) files name
        (redo_on_twice (λ file. update_redo file log) log.place
          (λ file.
            lsn_at-update_record (redo_hdr file log.place) log.place.rid log.new_value
              log.header.lsn
            ∙ e))
  redo_record_twice (begun header) files name e = λ q i. refl
  redo_record_twice (committed header) files name e = λ q i. refl
  redo_record_twice (aborted header) files name e = λ q i. refl
  redo_record_twice (checkpoint_at header) files name e = λ q i. refl
