-- ===== src/Record/File.antt =====
-- RmFileHandle of src/record/rm_file_handle.h and .cpp: the pages of a record file, each with its
-- pin count, dirty flag and LSN in the buffer pool, and the file header in memory and on disk. The
-- pool finds a frame for each page that is asked for; what it does otherwise is its own model. A
-- call with a context stamps the page with the LSN that the log manager gives it.
pub mod Scan
pub mod Contents
pub mod Order
pub mod Room
pub mod Positions
pub mod Walk
pub mod Listed
use grmdb.Base.{
  ℕ, zero, suc, ◌+◌, ◌-◌, List, Bool, true, false, ◌||◌, Option, none, some, ite, ltb,
  if◌then◌else◌, not,
}
use grmdb.Base.Int.{ℤ, pos, negsuc, pos_part, incr, decr, ltb_ℤ, ℤ_discrete}
use grmdb.Defs.{Rid}
use grmdb.Record.Page.{
  RmFileHdr, RmPage, rm_no_page, write_slot, insert_in_page, insert_at, delete_in_page,
  new_record_page,
}
use grmdb.Record.Bitmap.{set}
use grmdb.Recovery.LogRecord.{Place, TupleLogRecord, UpdateLogRecord}

pub record RmFrame : Type 0 where
  pub page : RmPage
  pub page_lsn : ℤ
  pub pin_count : ℕ
  pub is_dirty : Bool

-- The header page on disk is `disk_hdr`; `next_page` is the number that the disk manager gives next.
pub record RmFile : Type 0 where
  pub file_hdr : RmFileHdr
  pub disk_hdr : RmFileHdr
  pub frames : ℤ → RmFrame
  pub next_page : ℤ

unfoldable pub update_frame : RmFile → ℤ → (RmFrame → RmFrame) → RmFile
update_frame file p f = record file {
  frames = λ q. ite (ℤ_discrete p q) (f (file.frames p)) (file.frames q);
}

abbrev pub page_at : RmFile → ℤ → RmPage
page_at file p = (file.frames p).page

-- A change through a page handle.
abbrev pub set_page : RmFile → ℤ → RmPage → RmFile
set_page file p page = update_frame file p (λ frame. record frame { page = page })

abbrev pub slot_of : Rid → ℕ
slot_of rid = pos_part rid.slot_no

abbrev pub rid_at : ℤ → ℕ → Rid
rid_at p slot_no = record { page_no = p; slot_no = pos slot_no }

unfoldable pub fetch_page_handle : RmFile → ℤ → RmFile
unfolding update_frame
fetch_page_handle file p =
    update_frame file p (λ frame. record frame { pin_count = suc frame.pin_count })

-- `unpin_page` with the dirty flag set, as every call here does it.
unfoldable pub unpin_dirty : RmFile → ℤ → RmFile
unfolding update_frame
unpin_dirty file p = update_frame file p (λ frame. record frame {
  pin_count = frame.pin_count - 1;
  is_dirty = frame.is_dirty || ltb 0 frame.pin_count;
})

-- `set_page_lsn`, where there is a context.
unfoldable pub stamp : RmFile → ℤ → Option ℤ → RmFile
stamp file p none = file
stamp file p (some lsn) = update_frame file p (λ frame. record frame { page_lsn = lsn })

-- The header is changed in memory and written to disk.
abbrev pub write_hdr : RmFile → RmFileHdr → RmFile
write_hdr file hdr = record file { file_hdr = hdr; disk_hdr = hdr }

-- The slots of a page of zeros are a parameter.
unfoldable pub create_new_page_handle : (ℕ → List ℕ) → RmFile → ℤ × RmFile
unfolding update_frame new_record_page
create_new_page_handle slots file =
    let p = file.next_page in
    let hdr = record (file.file_hdr) {
      first_free_page_no = p;
      num_pages = incr file.file_hdr.num_pages;
    } in
    let created = update_frame file p (λ frame. record {
      page = new_record_page file.file_hdr slots;
      page_lsn = pos 0;
      pin_count = 1;
      is_dirty = false;
    }) in
    (p, write_hdr (record created { next_page = incr p }) hdr)

unfoldable pub create_page_handle : (ℕ → List ℕ) → RmFile → ℤ × RmFile
unfolding create_new_page_handle fetch_page_handle
create_page_handle slots file =
    let p = file.file_hdr.first_free_page_no in
    ite (ℤ_discrete p rm_no_page) (create_new_page_handle slots file) (p, fetch_page_handle file p)

-- A page that has become full is taken off the front of the free pages.
unfoldable pub unlink_if_full : RmFile → ℤ → RmFile
unlink_if_full file p =
    let page = page_at file p in
    let hdr = record (file.file_hdr) { first_free_page_no = page.next_free_page_no } in
    if not (ltb_ℤ page.num_records (pos file.file_hdr.num_records_per_page))
    then write_hdr (set_page file p (record page { next_free_page_no = rm_no_page })) hdr
    else file

unfoldable pub release_page_handle : RmFile → ℤ → RmFile
release_page_handle file p =
    let first = file.file_hdr.first_free_page_no in
    let hdr = record (file.file_hdr) { first_free_page_no = p } in
    ite (ℤ_discrete p first) file
      (write_hdr (set_page file p (record (page_at file p) { next_free_page_no = first })) hdr)

-- A page that was full goes to the front of the free pages.
unfoldable pub release_if_free : RmFile → ℤ → RmFile
unfolding release_page_handle
release_if_free file p =
    ite (ℤ_discrete (page_at file p).num_records (decr (pos file.file_hdr.num_records_per_page)))
      (release_page_handle file p) file

-- The record that is copied; the lock of the record is taken before.
unfoldable pub get_record : RmFile → Rid → List ℕ × RmFile
unfolding fetch_page_handle unpin_dirty
get_record file rid =
    let fetched = fetch_page_handle file rid.page_no in
    ((page_at fetched rid.page_no).slots (slot_of rid), unpin_dirty fetched rid.page_no)

unfoldable pub insert_record : (ℕ → List ℕ) → RmFile → List ℕ → Option ℤ → Rid × RmFile
unfolding create_page_handle insert_in_page unlink_if_full stamp unpin_dirty
insert_record slots file buf lsn =
    let (p, ready) = create_page_handle slots file in
    let (page, offset) = insert_in_page ready.file_hdr (page_at ready p) buf in
    let stored = unlink_if_full (set_page ready p page) p in
    (rid_at p offset, unpin_dirty (stamp stored p lsn) p)

unfoldable pub insert_record_at : RmFile → Rid → List ℕ → RmFile
unfolding fetch_page_handle insert_at unpin_dirty
insert_record_at file rid buf =
    let p = rid.page_no in
    let fetched = fetch_page_handle file p in
    unpin_dirty (set_page fetched p (insert_at (page_at fetched p) (slot_of rid) buf)) p

unfoldable pub delete_record : RmFile → Rid → Option ℤ → RmFile
unfolding fetch_page_handle delete_in_page release_if_free stamp unpin_dirty
delete_record file rid lsn =
    let p = rid.page_no in
    let fetched = fetch_page_handle file p in
    let deleted = set_page fetched p (delete_in_page (page_at fetched p) (slot_of rid)) in
    unpin_dirty (stamp (release_if_free deleted p) p lsn) p

unfoldable pub update_record : RmFile → Rid → List ℕ → Option ℤ → RmFile
unfolding fetch_page_handle write_slot stamp unpin_dirty
update_record file rid buf lsn =
    let p = rid.page_no in
    let fetched = fetch_page_handle file p in
    unpin_dirty
      (stamp (set_page fetched p (write_slot (page_at fetched p) (slot_of rid) buf)) p lsn) p

-- The header fields that a log record carries.
abbrev pub redo_hdr : RmFile → Place → RmFile
redo_hdr file place = record file {
  file_hdr = record (file.file_hdr) {
    first_free_page_no = place.first_free_page_no;
    num_pages = place.num_pages;
  };
}

unfoldable pub insert_redo : RmFile → TupleLogRecord → RmFile
unfolding fetch_page_handle insert_at unlink_if_full stamp unpin_dirty
insert_redo file log =
    let p = log.place.rid.page_no in
    let fetched = fetch_page_handle (redo_hdr file log.place) p in
    let taken = insert_at (page_at fetched p) (slot_of log.place.rid) log.value in
    let counted = record taken { num_records = incr taken.num_records } in
    unpin_dirty (stamp (unlink_if_full (set_page fetched p counted) p) p (some log.header.lsn)) p

unfoldable pub update_redo : RmFile → UpdateLogRecord → RmFile
unfolding update_record
update_redo file log =
    update_record (redo_hdr file log.place) log.place.rid log.new_value (some log.header.lsn)

unfoldable pub delete_redo : RmFile → TupleLogRecord → RmFile
unfolding delete_record
delete_redo file log = delete_record (redo_hdr file log.place) log.place.rid (some log.header.lsn)

unfoldable pub insert_undo : RmFile → Rid → RmFile
unfolding delete_record
insert_undo file rid = delete_record file rid none

unfoldable pub delete_undo : RmFile → Rid → List ℕ → RmFile
unfolding insert_record_at
delete_undo file rid buf = insert_record_at file rid buf

unfoldable pub update_undo : RmFile → Rid → List ℕ → RmFile
unfolding update_record
update_undo file rid buf = update_record file rid buf none
