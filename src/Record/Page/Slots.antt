-- ===== src/Record/Page/Slots.antt =====
-- The records of a page: where they go, and that the record count is the number of slots taken.
use grmdb.Base.{
  ℕ, ◌*◌, ◌/◌, ◌≤◌, ◌<◌, ◌≡◌, ◌≢◌, refl, List, true, false, arith, length, if◌then◌else◌, ◌==◌, inl,
  inr,
}
use grmdb.Base.Int.{pos, incr}
use grmdb.Record.Bitmap.{set, is_set, first_bit}
use grmdb.Record.Bitmap.Bits.{
  AreBytes, is_set-set, is_set-reset, set-AreBytes, reset-AreBytes, length-set_bit, length-reset,
}
use grmdb.Record.Bitmap.Scan.{first_bit-IsNext}
use grmdb.Record.Page.{RmFileHdr, RmPage, write_slot, insert_in_page, insert_at, delete_in_page}
use grmdb.Record.Page.Count.{count, count_full, count-set, count-reset}

-- The bitmap has room for the slots, and the record count is the number of slots taken.
pub record IsCounted (n : ℕ) (page : RmPage) : Type 0 where
  pub bytes : AreBytes page.bitmap
  pub room : n ≤ 8 * length page.bitmap
  pub counted : page.num_records ≡ pos (count page.bitmap n)

-- What an insertion promises: the slot was free and holds the record now, every other slot is as it
-- was, and the count is right.
pub record IsInserted (n : ℕ) (page page' : RmPage) (slot_no : ℕ) (buf : List ℕ) : Type 0 where
  pub inside : slot_no < n
  pub was_free : is_set page.bitmap slot_no ≡ false
  pub taken : is_set page'.bitmap slot_no ≡ true
  pub stored : page'.slots slot_no ≡ buf
  pub other_bits : (i : ℕ) → slot_no ≢ i → is_set page'.bitmap i ≡ is_set page.bitmap i
  pub other_slots : (i : ℕ) → slot_no ≢ i → page'.slots i ≡ page.slots i
  pub is_counted : IsCounted n page'

module _ (file_hdr : RmFileHdr) (page : RmPage) (buf : List ℕ)
    (v : IsCounted file_hdr.num_records_per_page page) where
  abbrev limit : ℕ
  limit = file_hdr.num_records_per_page

  -- On a page that is not full the search finds a free slot.
  free_slot :
      count page.bitmap limit < limit
      → (first_bit false page.bitmap limit < limit)
        × (is_set page.bitmap (first_bit false page.bitmap limit) ≡ false)
  free_slot space = elim (first_bit-IsNext false page.bitmap limit).found [
    | inl (_, inside, free) ↦ (inside, free)
    | inr none_free ↦ absurd (
        omega (
          arith,
          count_full page.bitmap limit (λ i h.
              (first_bit-IsNext false page.bitmap limit).passed i (omega arith) (rw none_free h)),
        ))
  ]

  write_slot-IsInserted :
      (slot_no : ℕ)
      → slot_no < limit
      → is_set page.bitmap slot_no ≡ false
      → IsInserted limit page
          (record (write_slot page slot_no buf) {
            bitmap = set page.bitmap slot_no;
            num_records = incr page.num_records;
          })
          slot_no
          buf
  unfolding write_slot
  write_slot-IsInserted slot_no inside free =
      let within : slot_no / 8 < length page.bitmap = omega (arith, v.room) in
      let bit = λ (i : ℕ). is_set-set page.bitmap slot_no i v.bytes within in
      record {
        inside = inside;
        was_free = free;
        taken = ground (arith, bit slot_no);
        stored = ground arith;
        other_bits = λ i other. ground (arith, bit i);
        other_slots = λ i other. ground arith;
        is_counted = record {
          bytes = set-AreBytes page.bitmap slot_no v.bytes;
          room = omega (arith, v.room, length-set_bit page.bitmap slot_no);
          counted =
              rw (v.counted, count-set page.bitmap slot_no v.bytes within limit inside free) refl;
        };
      }

  -- An insertion into a page that is not full stores the record in a free slot, leaves every other
  -- slot as it was, and keeps the record count the number of slots taken.
  pub insert_in_page-IsInserted :
      count page.bitmap file_hdr.num_records_per_page < file_hdr.num_records_per_page
      → IsInserted file_hdr.num_records_per_page page
          (insert_in_page file_hdr page buf).0
          (insert_in_page file_hdr page buf).1
          buf
  unfolding insert_in_page
  insert_in_page-IsInserted space =
      let (inside, free) = free_slot space in write_slot-IsInserted _ inside free

-- A deletion of a record that is there frees its slot, leaves every other slot as it was, and keeps
-- the record count the number of slots taken.
pub delete_in_page-IsCounted :
    (n : ℕ) (page : RmPage) (slot_no i : ℕ)
    → IsCounted n page
    → slot_no < n
    → is_set page.bitmap slot_no ≡ true
    → IsCounted n (delete_in_page page slot_no)
      × (is_set (delete_in_page page slot_no).bitmap i
          ≡ (if slot_no == i then false else is_set page.bitmap i))
      × ((delete_in_page page slot_no).slots i ≡ page.slots i)
unfolding delete_in_page
delete_in_page-IsCounted n page slot_no i v inside taken =
    let within : slot_no / 8 < length page.bitmap = omega (arith, v.room) in
    (
      record {
        bytes = reset-AreBytes page.bitmap slot_no v.bytes;
        room = omega (arith, v.room, length-reset page.bitmap slot_no);
        counted =
            rw (v.counted, ← count-reset page.bitmap slot_no v.bytes within n inside taken)
              (ground arith);
      },
      is_set-reset page.bitmap slot_no i v.bytes within,
      refl,
    )

-- The undo of a deletion puts the record back but does not count it: on a page with a right count,
-- the count is one too low afterwards.
insert_at_not_counted :
    (n : ℕ) (page : RmPage) (slot_no : ℕ) (buf : List ℕ)
    → IsCounted n page
    → slot_no < n
    → is_set page.bitmap slot_no ≡ false
    → incr (insert_at page slot_no buf).num_records
      ≡ pos (count (insert_at page slot_no buf).bitmap n)
unfolding insert_at write_slot
insert_at_not_counted n page slot_no buf v inside free =
    let within : slot_no / 8 < length page.bitmap = omega (arith, v.room) in
    rw (v.counted, count-set page.bitmap slot_no v.bytes within n inside free) refl
