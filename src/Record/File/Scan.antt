-- ===== src/Record/File/Scan.antt =====
-- RmScan of src/record/rm_scan.h and .cpp: the records of a file one after another. Each round of a
-- loop fetches a page and unpins it, which leaves the pages as they are. Of a file without a page
-- for records the source leaves the position as it is in memory; it is the end in any case.
use grmdb.Base.{ℕ, zero, suc, ◌+◌, ◌-◌, Bool, true, ◌||◌, ◌==◌, if◌then◌else◌, holds}
use grmdb.Base.Int.{ℤ, pos, negsuc, pos_part, incr, ltb_ℤ, ℤ_discrete}
use grmdb.Defs.{Rid}
use grmdb.Record.Bitmap.{next_bit}
use grmdb.Record.File.{RmFile, page_at, rid_at}

pub record RmScan : Type 0 where
  pub rid : Rid
  pub num_pages : ℤ
  pub num_records : ℕ
  pub end_page_no : ℤ

-- The first record of page p behind a slot, or `num_records`.
abbrev pub next_record : RmFile → ℕ → ℕ → ℤ → ℕ
next_record file num_records p slot_no =
    next_bit true (page_at file (pos p)).bitmap num_records slot_no

-- The pages from p on, a number of them: the position that the constructor starts at.
unfoldable pub first_rid : RmFile → ℕ → ℕ → ℕ → Rid
first_rid file num_records zero p = record { page_no = pos p; slot_no = negsuc 0 }
first_rid file num_records (suc rounds) p =
    let rest = first_rid file num_records rounds (p + 1) in
    let j = next_record file num_records p (negsuc 0) in
    if j == num_records then rest else rid_at (pos p) j

-- The pages from p down to 1: the last page with a record.
unfoldable pub last_page : RmFile → ℕ → ℕ → ℤ
last_page file num_records zero = negsuc 0
last_page file num_records (suc p) =
    let rest = last_page file num_records p in
    if next_record file num_records (suc p) (negsuc 0) == num_records then rest else pos (suc p)

unfoldable pub open_scan : RmFile → RmScan
unfolding first_rid last_page
open_scan file =
    let n = file.file_hdr.num_records_per_page in
    let last = pos_part file.file_hdr.num_pages - 1 in
    record {
      rid = first_rid file n last 1;
      num_pages = file.file_hdr.num_pages;
      num_records = n;
      end_page_no = last_page file n last;
    }

-- The pages from p on, a number of them, from the record behind a slot on.
unfoldable pub advance : RmFile → ℕ → ℕ → ℕ → ℤ → Rid
advance file num_records zero p slot_no = record { page_no = pos p; slot_no = slot_no }
advance file num_records (suc rounds) p slot_no =
    let rest = advance file num_records rounds (p + 1) (negsuc 0) in
    let j = next_record file num_records p slot_no in
    if j == num_records then rest else rid_at (pos p) j

unfoldable pub next : RmScan → RmFile → RmScan
unfolding advance
next scan file =
    let p = pos_part scan.rid.page_no in
    record scan {
      rid = advance file scan.num_records (pos_part (incr scan.end_page_no) - p) p scan.rid.slot_no;
    }

unfoldable pub is_end : RmScan → Bool
is_end scan =
    holds (ℤ_discrete scan.end_page_no (negsuc 0)) || ltb_ℤ scan.end_page_no scan.rid.page_no
