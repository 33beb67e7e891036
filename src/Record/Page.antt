-- ===== src/Record/Page.antt =====
-- src/record/rm_defs.h, the file header and the page of a record file, and what the operations of
-- src/record/rm_file_handle.cpp do to the page that they have fetched. The slots are their records'
-- bytes; `int` counts are integers, `slot_no` of a valid record is a natural number.
pub mod Count
pub mod Slots
use grmdb.Base.{ℕ, List, Bool, true, false, ite, ℕ_discrete, if◌then◌else◌}
use grmdb.Base.Int.{ℤ, pos, negsuc, incr, decr, ltb_ℤ}
use grmdb.Record.Bitmap.{init, set, reset, is_set, first_bit}

abbrev pub rm_no_page : ℤ
rm_no_page = negsuc 0

pub record RmFileHdr : Type 0 where
  pub record_size : ℕ
  pub num_pages : ℤ
  pub num_records_per_page : ℕ
  pub first_free_page_no : ℤ
  pub bitmap_size : ℕ

-- The page header, the bitmap and the slots of a page.
pub record RmPage : Type 0 where
  pub next_free_page_no : ℤ
  pub num_records : ℤ
  pub bitmap : List ℕ
  pub slots : ℕ → List ℕ

-- `memcpy` to a slot. The buffer stands for the `record_size` bytes that are copied from it.
unfoldable pub write_slot : RmPage → ℕ → List ℕ → RmPage
write_slot page slot_no buf = record page {
  slots = λ i. ite (ℕ_discrete slot_no i) buf (page.slots i);
}

-- `insert_record` without a position, on the page with free space: the page and the slot.
unfoldable pub insert_in_page : RmFileHdr → RmPage → List ℕ → RmPage × ℕ
unfolding write_slot
insert_in_page file_hdr page buf =
    let offset = first_bit false page.bitmap file_hdr.num_records_per_page in
    (
      record (write_slot page offset buf) {
        bitmap = set page.bitmap offset;
        num_records = incr page.num_records;
      },
      offset,
    )

-- `insert_record` at a position, which the undo of a deletion calls.
unfoldable pub insert_at : RmPage → ℕ → List ℕ → RmPage
unfolding write_slot
insert_at page slot_no buf =
    write_slot (record page { bitmap = set page.bitmap slot_no }) slot_no buf

unfoldable pub delete_in_page : RmPage → ℕ → RmPage
delete_in_page page slot_no = record page {
  bitmap = reset page.bitmap slot_no;
  num_records = decr page.num_records;
}

-- The page of `create_new_page_handle`; its slots are those of the zeroed page.
unfoldable pub new_record_page : RmFileHdr → (ℕ → List ℕ) → RmPage
new_record_page file_hdr slots = record {
  next_free_page_no = rm_no_page;
  num_records = pos 0;
  bitmap = init file_hdr.bitmap_size;
  slots = slots;
}
