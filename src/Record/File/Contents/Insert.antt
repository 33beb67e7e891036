-- ===== src/Record/File/Contents/Insert.antt =====
-- Where an insertion into a record file stores the record, and what it leaves of the others.
use grmdb.Base.{
  ℕ, zero, suc, replicate, length-replicate, ◌*◌, ◌≤◌, ◌<◌, ◌≡◌, ◌≢◌, refl, sym, ap, subst, ◌∙◌,
  inl, inr, List, Option, none, some, arith, if_pos, if_neg,
}
use grmdb.Base.Int.{ℤ, pos, ℤ_discrete}
use grmdb.Defs.{Rid}
use grmdb.Record.Bitmap.{init}
use grmdb.Record.Bitmap.Bits.{AreBytes, is_set-init}
use grmdb.Record.Page.{RmFileHdr, rm_no_page, new_record_page, insert_in_page}
use grmdb.Record.Page.Count.{count, count-init}
use grmdb.Record.Page.Slots.{IsCounted, insert_in_page-IsInserted}
use grmdb.Record.File.{
  RmFile, update_frame, page_at, set_page, slot_of, fetch_page_handle, unpin_dirty, stamp,
  unlink_if_full, create_new_page_handle, create_page_handle, insert_record,
}
use grmdb.Record.File.Contents.{
  record_in, record_at, fetch_page_handle-SameRecords, unpin_dirty-SameRecords, stamp-SameRecords,
  unlink_if_full-SameRecords, Writes, page-ite_yes, page-ite_no, fetch_page_here, set_page-Writes,
  around-Writes,
}

replicate-AreBytes : (n : ℕ) → AreBytes (replicate n 0)
replicate-AreBytes zero = tt
replicate-AreBytes (suc n) = (omega arith, replicate-AreBytes n)

-- A new page has room, no record, and a right count.
new_record_page-IsCounted :
    (hdr : RmFileHdr) (slots : ℕ → List ℕ)
    → hdr.num_records_per_page ≤ 8 * hdr.bitmap_size
    → IsCounted hdr.num_records_per_page (new_record_page hdr slots)
      × (count (new_record_page hdr slots).bitmap hdr.num_records_per_page ≡ 0)
      × ((i : ℕ) → record_in (new_record_page hdr slots) i ≡ none)
unfolding new_record_page init
new_record_page-IsCounted hdr slots fits =
    let empty = count-init hdr.bitmap_size hdr.num_records_per_page in
    (
      record {
        bytes = replicate-AreBytes hdr.bitmap_size;
        room = omega (arith, length-replicate {A = ℕ} hdr.bitmap_size 0);
        counted = sym (ap pos empty);
      },
      empty,
      λ i. rw (is_set-init hdr.bitmap_size i) refl,
    )

module _ (slots : ℕ → List ℕ) (file : RmFile) (buf : List ℕ) (lsn : Option ℤ) where
  abbrev first_free : ℤ
  first_free = file.file_hdr.first_free_page_no

  abbrev limit : ℕ
  limit = file.file_hdr.num_records_per_page

  create_page_handle_free :
      first_free ≢ rm_no_page
      → create_page_handle slots file ≡ (first_free, fetch_page_handle file first_free)
  unfolding create_page_handle
  create_page_handle_free some_free = rw (create_page_handle, if_neg _ some_free) refl

  -- What is done on the page that has been found.
  abbrev placed : ℤ → RmFile → Rid × RmFile
  placed p ready =
      let (page, offset) = insert_in_page ready.file_hdr (page_at ready p) buf in
      let stored = unlink_if_full (set_page ready p page) p in
      (record { page_no = p; slot_no = pos offset }, unpin_dirty (stamp stored p lsn) p)

  placed-Writes :
      (p : ℤ) (ready : RmFile)
      → IsCounted ready.file_hdr.num_records_per_page (page_at ready p)
      → count (page_at ready p).bitmap ready.file_hdr.num_records_per_page
        < ready.file_hdr.num_records_per_page
      → (record_at ready p (slot_of (placed p ready).0) ≡ none)
        × Writes ready (placed p ready).1 p (slot_of (placed p ready).0) (some buf)
  placed-Writes p ready v space =
      let (page, offset) = insert_in_page ready.file_hdr (page_at ready p) buf in
      let inserted = insert_in_page-IsInserted ready.file_hdr (page_at ready p) buf v space in
      let written = set_page ready p page in
      let stored = unlink_if_full written p in
      (
        rw (inserted.was_free) refl,
        around-Writes ready ready written (unpin_dirty (stamp stored p lsn) p) p offset (some buf)
            (λ q i. refl)
            (set_page-Writes ready p page offset (some buf)
              (rw (inserted.taken, inserted.stored) refl)
              (λ i other.
                rw
                  (
                    inserted.other_bits i (λ e. other (sym e)),
                    inserted.other_slots i (λ e. other (sym e)),
                  )
                  refl))
            (λ q i.
              unpin_dirty-SameRecords (stamp stored p lsn) p q i
              ∙ stamp-SameRecords stored p lsn q i
              ∙ unlink_if_full-SameRecords written p q i),
      )

  insert_on_free :
      first_free ≢ rm_no_page
      → insert_record slots file buf lsn ≡ placed first_free (fetch_page_handle file first_free)
  unfolding insert_record
  insert_on_free some_free = ap (λ r. placed r.0 r.1) (create_page_handle_free some_free)

  -- A record is stored in a slot that was empty, and every other record is as it was.
  abbrev pub StoresNew : Rid × RmFile → Type 0
  StoresNew stored =
      (record_at file stored.0.page_no (slot_of stored.0) ≡ none)
      × Writes file stored.1 stored.0.page_no (slot_of stored.0) (some buf)

  -- With a free page that is not full, an insertion stores the record in a slot that was empty, and
  -- leaves every other record; it returns where the record is.
  pub insert_record-StoresNew :
      first_free ≢ rm_no_page
      → IsCounted limit (page_at file first_free)
      → count (page_at file first_free).bitmap limit < limit
      → StoresNew (insert_record slots file buf lsn)
  unfolding fetch_page_handle update_frame
  insert_record-StoresNew some_free v space =
      let ready = fetch_page_handle file first_free in
      let page = sym (fetch_page_here file first_free) in
      let same = fetch_page_handle-SameRecords file first_free in
      let (empty, (here, others)) =
        placed-Writes first_free ready (subst (IsCounted limit) page v)
          (subst (λ x. count x.bitmap limit < limit) page space) in
      subst StoresNew (sym (insert_on_free some_free)) (
        sym (same first_free (slot_of (placed first_free ready).0)) ∙ empty,
        (here, λ q i other. others q i other ∙ same q i),
      )

  abbrev created : RmFile
  created = (create_new_page_handle slots file).1

  create_page_handle_new :
      first_free ≡ rm_no_page → create_page_handle slots file ≡ (file.next_page, created)
  unfolding create_page_handle create_new_page_handle
  create_page_handle_new none_free = rw (create_page_handle, if_pos _ none_free) refl

  insert_on_new :
      first_free ≡ rm_no_page → insert_record slots file buf lsn ≡ placed file.next_page created
  unfolding insert_record
  insert_on_new none_free = ap (λ r. placed r.0 r.1) (create_page_handle_new none_free)

  created_page : page_at created file.next_page ≡ new_record_page file.file_hdr slots
  unfolding create_new_page_handle update_frame
  created_page =
      page-ite_yes (ℤ_discrete file.next_page file.next_page) _ (file.frames file.next_page) refl

  created_other : (q : ℤ) → q ≢ file.next_page → page_at created q ≡ page_at file q
  unfolding create_new_page_handle update_frame
  created_other q other =
      page-ite_no (ℤ_discrete file.next_page q) _ (file.frames q) (λ e. other (sym e))

  created_limit : created.file_hdr.num_records_per_page ≡ limit
  unfolding create_new_page_handle update_frame
  created_limit = refl

  -- A record is stored on a new page, and the records of every other page are as they were.
  abbrev pub StoresOnNew : Rid × RmFile → Type 0
  StoresOnNew stored =
      (stored.0.page_no ≡ file.next_page)
      × (record_at stored.1 stored.0.page_no (slot_of stored.0) ≡ some buf)
      × ((i : ℕ) → i ≢ slot_of stored.0 → record_at stored.1 stored.0.page_no i ≡ none)
      × ((q : ℤ) (i : ℕ) → q ≢ stored.0.page_no → record_at stored.1 q i ≡ record_at file q i)

  -- Without a free page, an insertion stores the record on a new page, which holds nothing else, and
  -- leaves the records of every other page.
  pub insert_record-StoresOnNew :
      first_free ≡ rm_no_page
      → 0 < limit
      → limit ≤ 8 * file.file_hdr.bitmap_size
      → StoresOnNew (insert_record slots file buf lsn)
  insert_record-StoresOnNew none_free room fits =
      let p = file.next_page in
      let page = sym created_page in
      let fresh = new_record_page-IsCounted file.file_hdr slots fits in
      let (empty, (here, others)) =
        placed-Writes p created (rw created_limit (subst (IsCounted limit) page fresh.0))
          (rw created_limit (subst (λ x. count x.bitmap limit < limit) page (rw (fresh.1) room))) in
      subst StoresOnNew (sym (insert_on_new none_free)) (
        refl,
        here,
        (λ i other. others p i (inr other) ∙ ap (λ x. record_in x i) created_page ∙ fresh.2 i),
        λ q i other. others q i (inl other) ∙ ap (λ x. record_in x i) (created_other q other),
      )
