-- ===== src/Record/File/Room.antt =====
-- Bitmaps of pages that have room for the slots, which is all that the undo of a write asks for: the
-- record count of a page may be wrong there.
use grmdb.Base.{
  ℕ, suc, ◌-◌, ◌*◌, ◌/◌, ◌≤◌, ◌<◌, ◌∙◌, List, ◌||◌, Option, none, some, arith, ite, if_pos, if_neg,
  ltb, length,
}
use grmdb.Base.Int.{ℤ, pos, decr, ℤ_discrete}
use grmdb.Defs.{Rid}
use grmdb.Record.Bitmap.Bits.{
  AreBytes, is_set-set, is_set-reset, set-AreBytes, reset-AreBytes, length-set_bit, length-reset,
}
use grmdb.Record.Page.{RmPage, write_slot, insert_at, delete_in_page}
use grmdb.Record.File.{
  RmFile, RmFrame, update_frame, page_at, set_page, slot_of, fetch_page_handle, unpin_dirty, stamp,
  release_page_handle, release_if_free, delete_record, insert_record_at, update_record,
}
use grmdb.Record.File.Contents.{
  Writes, set_page-Writes, around-Writes, fetch_page_handle-SameRecords, unpin_dirty-SameRecords,
  stamp-SameRecords, release_if_free-SameRecords,
}

module _ (n : ℕ) where
  abbrev pub HasRoom : RmPage → Type 0
  HasRoom page = AreBytes page.bitmap × (n ≤ 8 * length page.bitmap)

  abbrev pub IsRoomy : RmFile → Type 0
  IsRoomy file = (p : ℤ) → HasRoom (page_at file p)

  HasRoom-ite :
      {P : Type 0} (d : Dec P) (a b : RmFrame)
      → HasRoom a.page
      → HasRoom b.page
      → HasRoom (ite d a b).page
  HasRoom-ite (yes p) a b this that = this
  HasRoom-ite (no p) a b this that = that

  update_frame-IsRoomy :
      (file : RmFile) (p : ℤ) (f : RmFrame → RmFrame)
      → HasRoom (f (file.frames p)).page
      → IsRoomy file
      → IsRoomy (update_frame file p f)
  unfolding update_frame
  update_frame-IsRoomy file p f this room q =
      HasRoom-ite (ℤ_discrete p q) (f (file.frames p)) (file.frames q) this (room q)

  pub fetch_page_handle-IsRoomy :
      (file : RmFile) (p : ℤ) → IsRoomy file → IsRoomy (fetch_page_handle file p)
  unfolding fetch_page_handle
  fetch_page_handle-IsRoomy file p room =
      update_frame-IsRoomy file p (λ frame. record frame { pin_count = suc frame.pin_count })
        (room p) room

  pub unpin_dirty-IsRoomy : (file : RmFile) (p : ℤ) → IsRoomy file → IsRoomy (unpin_dirty file p)
  unfolding unpin_dirty
  unpin_dirty-IsRoomy file p room =
      update_frame-IsRoomy file p
        (λ frame. record frame {
          pin_count = frame.pin_count - 1;
          is_dirty = frame.is_dirty || ltb 0 frame.pin_count;
        })
        (room p) room

  stamp-IsRoomy :
      (file : RmFile) (p : ℤ) (lsn : Option ℤ) → IsRoomy file → IsRoomy (stamp file p lsn)
  unfolding stamp
  stamp-IsRoomy file p none room = room
  stamp-IsRoomy file p (some lsn) room =
      update_frame-IsRoomy file p (λ frame. record frame { page_lsn = lsn }) (room p) room

  set_page-IsRoomy :
      (file : RmFile) (p : ℤ) (page : RmPage)
      → HasRoom page
      → IsRoomy file
      → IsRoomy (set_page file p page)
  set_page-IsRoomy file p page this room =
      update_frame-IsRoomy file p (λ frame. record frame { page = page }) this room

  release_if_free-IsRoomy :
      (file : RmFile) (p : ℤ) → IsRoomy file → IsRoomy (release_if_free file p)
  unfolding release_if_free release_page_handle
  release_if_free-IsRoomy file p room =
      elim (ℤ_discrete (page_at file p).num_records
        (decr (pos file.file_hdr.num_records_per_page))) [
          | no other ↦ rw (release_if_free, if_neg _ other) room
          | yes freed ↦ elim (ℤ_discrete p file.file_hdr.first_free_page_no) [
            | yes first ↦
                rw (release_if_free, if_pos _ freed, release_page_handle, if_pos _ first) room
            | no other ↦
                rw (release_if_free, if_pos _ freed, release_page_handle, if_neg _ other)
                  (set_page-IsRoomy file p
                    (record (page_at file p) {
                      next_free_page_no = file.file_hdr.first_free_page_no;
                    })
                    (room p) room)
          ]
        ]

  -- A deletion, with or without the record being there.
  module _ (file : RmFile) (rid : Rid) (room : IsRoomy file) (inside : slot_of rid < n) where
    abbrev p : ℤ
    p = rid.page_no

    abbrev s : ℕ
    s = slot_of rid

    abbrev fetched : RmFile
    fetched = fetch_page_handle file p

    fetched-IsRoomy : IsRoomy fetched
    fetched-IsRoomy = fetch_page_handle-IsRoomy file p room

    within : s / 8 < length (page_at fetched p).bitmap
    within = omega (arith, (fetched-IsRoomy p).1)

    pub delete_record-empties :
        (lsn : Option ℤ)
        → IsRoomy (delete_record file rid lsn)
          × Writes file (delete_record file rid lsn) rid.page_no (slot_of rid) none
    unfolding delete_record delete_in_page
    delete_record-empties lsn =
        let page = delete_in_page (page_at fetched p) s in
        let deleted = set_page fetched p page in
        let released = release_if_free deleted p in
        let bytes = (fetched-IsRoomy p).0 in
        let bits = λ (i : ℕ). is_set-reset (page_at fetched p).bitmap s i bytes within in
        (
          unpin_dirty-IsRoomy (stamp released p lsn) p (
              stamp-IsRoomy released p lsn (
                release_if_free-IsRoomy deleted p (
                  set_page-IsRoomy fetched p page
                    (
                      reset-AreBytes (page_at fetched p).bitmap s bytes,
                      omega
                          (arith, (fetched-IsRoomy p).1, length-reset (page_at fetched p).bitmap s),
                    )
                    fetched-IsRoomy))),
          around-Writes file fetched deleted (unpin_dirty (stamp released p lsn) p) p s none
              (fetch_page_handle-SameRecords file p)
              (set_page-Writes fetched p page s none (rw (bits s) (ground arith))
                (λ i other. rw (bits i) (ground arith)))
              (λ q i.
                unpin_dirty-SameRecords (stamp released p lsn) p q i
                ∙ stamp-SameRecords released p lsn q i
                ∙ release_if_free-SameRecords deleted p q i),
        )

    pub insert_record_at-stores :
        (buf : List ℕ)
        → IsRoomy (insert_record_at file rid buf)
          × Writes file (insert_record_at file rid buf) rid.page_no (slot_of rid) (some buf)
    unfolding insert_record_at insert_at write_slot
    insert_record_at-stores buf =
        let page = insert_at (page_at fetched p) s buf in
        let stored = set_page fetched p page in
        let bytes = (fetched-IsRoomy p).0 in
        let bits = λ (i : ℕ). is_set-set (page_at fetched p).bitmap s i bytes within in
        (
          unpin_dirty-IsRoomy stored p (
              set_page-IsRoomy fetched p page
                (
                  set-AreBytes (page_at fetched p).bitmap s bytes,
                  omega (arith, (fetched-IsRoomy p).1, length-set_bit (page_at fetched p).bitmap s),
                )
                fetched-IsRoomy),
          around-Writes file fetched stored (unpin_dirty stored p) p s (some buf)
              (fetch_page_handle-SameRecords file p)
              (set_page-Writes fetched p page s (some buf) (rw (bits s) (ground arith))
                (λ i other. rw (bits i) (ground arith)))
              (unpin_dirty-SameRecords stored p),
        )

    pub update_record-IsRoomy :
        (buf : List ℕ) (lsn : Option ℤ) → IsRoomy (update_record file rid buf lsn)
    unfolding update_record write_slot
    update_record-IsRoomy buf lsn =
        let page = write_slot (page_at fetched p) s buf in
        let stored = set_page fetched p page in
        unpin_dirty-IsRoomy (stamp stored p lsn) p (
          stamp-IsRoomy stored p lsn
            (set_page-IsRoomy fetched p page (fetched-IsRoomy p) fetched-IsRoomy))
