-- ===== src/Record/File/Contents.antt =====
-- The records that a file holds, and what the operations of a record file do to them.
pub mod Insert
use grmdb.Base.{
  ℕ, zero, suc, replicate, length-replicate, ◌-◌, ◌*◌, ◌≤◌, ◌<◌, ◌≡◌, ◌≢◌, refl, sym, ap, subst,
  ◌∙◌, ◌⊎◌, inl, inr, List, true, ◌||◌, Option, none, some, arith, ite, if_pos, if_neg, ltb,
  if◌then◌else◌, Bool-cases, not,
}
use grmdb.Base.Int.{ℤ, pos, decr, ltb_ℤ, ℤ_discrete}
use grmdb.Defs.{Rid}
use grmdb.Record.Bitmap.{init, is_set}
use grmdb.Record.Bitmap.Bits.{AreBytes, is_set-init}
use grmdb.Record.Page.{
  RmFileHdr, RmPage, rm_no_page, new_record_page, write_slot, insert_in_page, delete_in_page,
}
use grmdb.Record.Page.Count.{count, count-init}
use grmdb.Record.Page.Slots.{IsCounted, insert_in_page-IsInserted, delete_in_page-IsCounted}
use grmdb.Record.File.{
  RmFile, RmFrame, update_frame, page_at, set_page, slot_of, fetch_page_handle, unpin_dirty, stamp,
  write_hdr, unlink_if_full, release_page_handle, release_if_free, create_new_page_handle,
  create_page_handle, insert_record, delete_record, update_record,
}

-- The record in a slot of a page, if there is one.
abbrev pub record_in : RmPage → ℕ → Option (List ℕ)
record_in page i = if is_set page.bitmap i then some (page.slots i) else none

abbrev pub record_at : RmFile → ℤ → ℕ → Option (List ℕ)
record_at file p i = record_in (page_at file p) i

-- Two files hold the same records.
abbrev pub SameRecords : RmFile → RmFile → Type 0
SameRecords file file' = (p : ℤ) (i : ℕ) → record_at file' p i ≡ record_at file p i

record_in-ite :
    {P : Type 0} (d : Dec P) (a b : RmFrame) (i : ℕ)
    → (P → record_in a.page i ≡ record_in b.page i)
    → record_in (ite d a b).page i ≡ record_in b.page i
record_in-ite (yes p) a b i same = same p
record_in-ite (no n) a b i same = refl

pub update_frame-SameRecords :
    (file : RmFile) (p : ℤ) (f : RmFrame → RmFrame)
    → ((i : ℕ) → record_in (f (file.frames p)).page i ≡ record_in (page_at file p) i)
    → SameRecords file (update_frame file p f)
unfolding update_frame
update_frame-SameRecords file p f keeps q i =
    record_in-ite (ℤ_discrete p q) (f (file.frames p)) (file.frames q) i
      (λ e. keeps i ∙ ap (λ x. record_at file x i) e)

pub fetch_page_handle-SameRecords :
    (file : RmFile) (p : ℤ) → SameRecords file (fetch_page_handle file p)
unfolding fetch_page_handle
fetch_page_handle-SameRecords file p =
    update_frame-SameRecords file p (λ frame. record frame { pin_count = suc frame.pin_count })
      (λ i. refl)

pub unpin_dirty-SameRecords : (file : RmFile) (p : ℤ) → SameRecords file (unpin_dirty file p)
unfolding unpin_dirty
unpin_dirty-SameRecords file p =
    update_frame-SameRecords file p
      (λ frame. record frame {
        pin_count = frame.pin_count - 1;
        is_dirty = frame.is_dirty || ltb 0 frame.pin_count;
      })
      (λ i. refl)

pub stamp-SameRecords :
    (file : RmFile) (p : ℤ) (lsn : Option ℤ) → SameRecords file (stamp file p lsn)
unfolding stamp
stamp-SameRecords file p none q i = refl
stamp-SameRecords file p (some lsn) q i =
    update_frame-SameRecords file p (λ frame. record frame { page_lsn = lsn }) (λ j. refl) q i

-- A change of the link of a page, with a change of the header.
link-SameRecords :
    (file : RmFile) (p next : ℤ) (hdr : RmFileHdr)
    → SameRecords file
        (write_hdr (set_page file p (record (page_at file p) { next_free_page_no = next })) hdr)
link-SameRecords file p next hdr q i =
    update_frame-SameRecords file p
      (λ frame. record frame { page = record (page_at file p) { next_free_page_no = next } })
      (λ j. refl) q i

pub unlink_if_full-SameRecords : (file : RmFile) (p : ℤ) → SameRecords file (unlink_if_full file p)
unfolding unlink_if_full
unlink_if_full-SameRecords file p q i =
    elim (Bool-cases
      (not (ltb_ℤ (page_at file p).num_records (pos file.file_hdr.num_records_per_page)))) [
        | inl full ↦
            rw (unlink_if_full, full)
              (link-SameRecords file p rm_no_page
                (record (file.file_hdr) { first_free_page_no = (page_at file p).next_free_page_no })
                q i)
        | inr room ↦ rw (unlink_if_full, room) refl
      ]

pub release_if_free-SameRecords :
    (file : RmFile) (p : ℤ) → SameRecords file (release_if_free file p)
unfolding release_if_free release_page_handle
release_if_free-SameRecords file p q i =
    elim (ℤ_discrete (page_at file p).num_records (decr (pos file.file_hdr.num_records_per_page))) [
      | no other ↦ rw (release_if_free, if_neg _ other) refl
      | yes freed ↦ elim (ℤ_discrete p file.file_hdr.first_free_page_no) [
        | yes first ↦ rw (release_if_free, if_pos _ freed, release_page_handle, if_pos _ first) refl
        | no other ↦
            rw (release_if_free, if_pos _ freed, release_page_handle, if_neg _ other)
              (link-SameRecords file p file.file_hdr.first_free_page_no
                (record (file.file_hdr) { first_free_page_no = p }) q i)
      ]
    ]

-- One slot has changed to what is said, and no other.
abbrev pub Writes : RmFile → RmFile → ℤ → ℕ → Option (List ℕ) → Type 0
Writes file file' p s o =
    (record_at file' p s ≡ o)
    × ((q : ℤ) (i : ℕ) → (q ≢ p) ⊎ (i ≢ s) → record_at file' q i ≡ record_at file q i)

pub page-ite_yes : {P : Type 0} (d : Dec P) (a b : RmFrame) → P → (ite d a b).page ≡ a.page
page-ite_yes (yes p) a b h = refl
page-ite_yes (no n) a b h = absurd (n h)

pub page-ite_no : {P : Type 0} (d : Dec P) (a b : RmFrame) → (P → ⊥) → (ite d a b).page ≡ b.page
page-ite_no (yes p) a b h = absurd (h p)
page-ite_no (no n) a b h = refl

set_page_here : (file : RmFile) (p : ℤ) (page : RmPage) → page_at (set_page file p page) p ≡ page
unfolding update_frame
set_page_here file p page =
    page-ite_yes (ℤ_discrete p p) (record (file.frames p) { page = page }) (file.frames p) refl

set_page_other :
    (file : RmFile) (p q : ℤ) (page : RmPage)
    → q ≢ p
    → page_at (set_page file p page) q ≡ page_at file q
unfolding update_frame
set_page_other file p q page other =
    page-ite_no (ℤ_discrete p q) (record (file.frames p) { page = page }) (file.frames q)
      (λ e. other (sym e))

pub fetch_page_here :
    (file : RmFile) (p : ℤ) → page_at (fetch_page_handle file p) p ≡ page_at file p
unfolding fetch_page_handle update_frame
fetch_page_here file p =
    page-ite_yes (ℤ_discrete p p)
      (record (file.frames p) { pin_count = suc (file.frames p).pin_count }) (file.frames p) refl

pub set_page-Writes :
    (file : RmFile) (p : ℤ) (page : RmPage) (s : ℕ) (o : Option (List ℕ))
    → record_in page s ≡ o
    → ((i : ℕ) → i ≢ s → record_in page i ≡ record_at file p i)
    → Writes file (set_page file p page) p s o
set_page-Writes file p page s o here others = (
  ap (λ x. record_in x s) (set_page_here file p page) ∙ here,
  λ q i other. elim (ℤ_discrete q p) [
    | no apart ↦ ap (λ x. record_in x i) (set_page_other file p q page apart)
    | yes same ↦
        let slot : i ≢ s = elim other [ inl apart ↦ absurd (apart same) | inr slot ↦ slot ] in
        subst (λ x. record_at (set_page file p page) x i ≡ record_at file x i) (sym same)
          (ap (λ x. record_in x i) (set_page_here file p page) ∙ others i slot)
  ],
)

-- What comes before and after a write and keeps the records.
pub around-Writes :
    (file a b c : RmFile) (p : ℤ) (s : ℕ) (o : Option (List ℕ))
    → SameRecords file a
    → Writes a b p s o
    → SameRecords b c
    → Writes file c p s o
around-Writes file a b c p s o before (here, others) after =
    (after p s ∙ here, λ q i other. after q i ∙ others q i other ∙ before q i)

-- An update of a record that is there stores the new one in its slot, and leaves every other record.
pub update_record-Writes :
    (file : RmFile) (rid : Rid) (buf : List ℕ) (lsn : Option ℤ)
    → is_set (page_at file rid.page_no).bitmap (slot_of rid) ≡ true
    → Writes file (update_record file rid buf lsn) rid.page_no (slot_of rid) (some buf)
unfolding update_record write_slot
update_record-Writes file rid buf lsn there =
    let p = rid.page_no in
    let s = slot_of rid in
    let fetched = fetch_page_handle file p in
    let page = write_slot (page_at fetched p) s buf in
    let stored = set_page fetched p page in
    around-Writes file fetched stored (unpin_dirty (stamp stored p lsn) p) p s (some buf)
      (fetch_page_handle-SameRecords file p)
      (set_page-Writes fetched p page s (some buf)
        (rw (fetch_page_here file p, there) (ground arith)) (λ i other. ground arith))
      (λ q i.
        unpin_dirty-SameRecords (stamp stored p lsn) p q i ∙ stamp-SameRecords stored p lsn q i)

-- A deletion of a record that is there empties its slot, and leaves every other record.
pub delete_record-Writes :
    (file : RmFile) (rid : Rid) (lsn : Option ℤ)
    → IsCounted file.file_hdr.num_records_per_page (page_at file rid.page_no)
    → slot_of rid < file.file_hdr.num_records_per_page
    → is_set (page_at file rid.page_no).bitmap (slot_of rid) ≡ true
    → Writes file (delete_record file rid lsn) rid.page_no (slot_of rid) none
unfolding delete_record
delete_record-Writes file rid lsn v inside there =
    let p = rid.page_no in
    let s = slot_of rid in
    let n = file.file_hdr.num_records_per_page in
    let fetched = fetch_page_handle file p in
    let same = fetch_page_here file p in
    let page = delete_in_page (page_at fetched p) s in
    let deleted = set_page fetched p page in
    let released = release_if_free deleted p in
    let bits = λ (i : ℕ).
      delete_in_page-IsCounted n (page_at fetched p) s i (subst (IsCounted n) (sym same) v) inside
        (rw same there) in
    around-Writes file fetched deleted (unpin_dirty (stamp released p lsn) p) p s none
      (fetch_page_handle-SameRecords file p)
      (set_page-Writes fetched p page s none (rw ((bits s).1) (ground arith))
        (λ i other. rw ((bits i).1, (bits i).2) (ground arith)))
      (λ q i.
        unpin_dirty-SameRecords (stamp released p lsn) p q i
        ∙ stamp-SameRecords released p lsn q i
        ∙ release_if_free-SameRecords deleted p q i)
