-- ===== src/Tests/Records.antt =====
-- Runs of the pages and files of records, and of recovery, on concrete inputs.
use grmdb.Base.{ℕ, ◌≡◌, List, [], ◌∷◌, false, none, some, arith, refl, ap, lookup}
use grmdb.Base.Int.{ℤ, pos, negsuc, neg_part, ℤ_discrete}
use grmdb.Record.Bitmap.{is_set, get_bucket, get_bit}
use grmdb.Record.Page.{RmFileHdr, RmPage}
use grmdb.Record.Page.Count.{count}
use grmdb.Record.Page.Slots.{IsCounted}
use grmdb.Recovery.LogRecord.{LogRecord}
use grmdb.Recovery.LogRecovery.{undo, RecoveryManager, LogEntry, begun, updated, redo_record}
use grmdb.Recovery.LogRecovery.Undo.{undo-some}
use grmdb.Recovery.LogRecovery.Redo.{redo_record_twice}
use grmdb.Record.File.{RmFile, rid_at, insert_record, delete_record}
use grmdb.Record.File.Scan.{RmScan}
use grmdb.Record.File.Contents.{SameRecords, Writes, delete_record-Writes}
use grmdb.Record.File.Contents.Insert.{StoresNew, insert_record-StoresNew}

abbrev bitmap : List ℕ
bitmap = 0xA0 ∷ 0 ∷ []

-- A page of four slots, of which 0 and 2 are taken.
abbrev file_hdr : RmFileHdr
file_hdr = record {
  record_size = 1;
  num_pages = pos 2;
  num_records_per_page = 4;
  first_free_page_no = pos 1;
  bitmap_size = 2;
}

abbrev record_page : RmPage
record_page = record {
  next_free_page_no = negsuc 0;
  num_records = pos 2;
  bitmap = bitmap;
  slots = λ i. i ∷ [];
}

record_page-IsCounted : IsCounted 4 record_page
unfolding count is_set get_bucket get_bit
record_page-IsCounted = record {
  bytes = (omega arith, (omega arith, tt));
  room = omega arith;
  counted = refl;
}

-- Every page is that page.
abbrev file : RmFile
file = record {
  file_hdr = file_hdr;
  disk_hdr = file_hdr;
  frames = λ _. record { page = record_page; page_lsn = pos 0; pin_count = 0; is_dirty = false };
  next_page = pos 2;
}

insert_record-StoresNew_example :
    StoresNew (λ _. []) file (9 ∷ []) none (insert_record (λ _. []) file (9 ∷ []) none)
unfolding count is_set get_bucket get_bit
insert_record-StoresNew_example =
    insert_record-StoresNew (λ _. []) file (9 ∷ []) none (λ e. ground (arith, ap neg_part e))
      record_page-IsCounted (omega arith)

delete_record-Writes_example :
    Writes file (delete_record file (rid_at (pos 1) 2) none) (pos 1) 2 none
unfolding is_set get_bucket get_bit
delete_record-Writes_example =
    delete_record-Writes file (rid_at (pos 1) 2) none record_page-IsCounted (omega arith) refl

abbrev scan : RmScan
scan = record { rid = rid_at (pos 1) 2; num_pages = pos 4; num_records = 4; end_page_no = pos 3 }

abbrev header : ℤ → ℤ → LogRecord
header lsn tid = record {
  log_type = pos 0;
  lsn = lsn;
  log_tot_len = 20;
  log_tid = tid;
  prev_lsn = negsuc 0;
}

abbrev recovery : RecoveryManager
recovery = record {
  att = [];
  dpt = (record { fd = pos 3; page_no = pos 1 }, pos 5) ∷ [];
  log_offsets = [];
  last_lsn = negsuc 0;
  aborted_tids = [];
}

abbrev redone_update : LogEntry
redone_update = updated (record {
  header = record (header (pos 5) (pos 1)) { prev_lsn = pos 0 };
  old_value = 2 ∷ [];
  new_value = 9 ∷ [];
  place = record {
    rid = rid_at (pos 1) 2;
    table_name = 116 ∷ [];
    first_free_page_no = pos 1;
    num_pages = pos 2;
  };
})

redo_record_twice_example :
    SameRecords
      (redo_record (λ _. pos 3) recovery.dpt (pos 5) redone_update (λ _. file) (116 ∷ []))
      (redo_record
        (λ _. pos 3)
        recovery.dpt
        (pos 5)
        redone_update
        (redo_record (λ _. pos 3) recovery.dpt (pos 5) redone_update (λ _. file))
        (116 ∷ []))
redo_record_twice_example =
    redo_record_twice (λ _. pos 3) recovery.dpt (pos 5) redone_update (λ _. file) (116 ∷ []) refl

-- A log of a begin and an update, of a transaction that is unfinished.
abbrev crashed : RecoveryManager
crashed = record recovery {
  att = (pos 1, pos 5) ∷ [];
  log_offsets = (pos 0, begun (header (pos 0) (pos 1))) ∷ (pos 5, redone_update) ∷ [];
}

undo-some_example :
    (undone : List ℕ → RmFile) × (undo 3 crashed (begun (header (pos 0) (pos 1))) (λ _. file)
      ≡ some undone)
unfolding lookup ℤ_discrete grmdb.Base.ℕ_discrete
undo-some_example =
    undo-some crashed (begun (header (pos 0) (pos 1))) 3 2 (λ _. file) (2, 0, omega arith, tt, tt)
      (omega arith)
