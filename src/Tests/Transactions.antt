-- ===== src/Tests/Transactions.antt =====
-- A transaction that has updated a record, and is aborted.
use grmdb.Base.{ℕ, ◌≡◌, ap, ◌∙◌, false, List, [], ◌∷◌, none, some, Option, arith, refl}
use grmdb.Base.Int.{pos, negsuc}
use grmdb.Defs.{Rid}
use grmdb.Storage.Disk.{Disk}
use grmdb.Record.Bitmap.{is_set, get_bucket, get_bit}
use grmdb.Record.Page.{RmFileHdr}
use grmdb.Record.File.{RmFile, rid_at, update_record}
use grmdb.Record.File.Contents.{Writes, record_at, update_record-Writes}
use grmdb.Record.File.Room.{IsRoomy, update_record-IsRoomy}
use grmdb.Recovery.LogManager.{LogManager}
use grmdb.Transaction.Defs.{TransactionState, table_id}
use grmdb.Transaction.Manager.{WType, Txn, Database, Services, set_file, abort}
use grmdb.Transaction.Manager.Logged.{
  IsLogged, records, file_here, set_file_outside, set_file-AreRoomy,
}
use grmdb.Transaction.Manager.Abort.{HaveNoIndex, RolledBack, abort-RolledBack}

-- A page of four slots, of which 0 and 2 are taken.
abbrev file_hdr : RmFileHdr
file_hdr = record {
  record_size = 1;
  num_pages = pos 2;
  num_records_per_page = 4;
  first_free_page_no = pos 1;
  bitmap_size = 2;
}

-- Every page is that page.
abbrev pub file : RmFile
file = record {
  file_hdr = file_hdr;
  disk_hdr = file_hdr;
  frames = λ _. record {
    page = record {
      next_free_page_no = negsuc 0;
      num_records = pos 2;
      bitmap = 0xA0 ∷ 0 ∷ [];
      slots = λ i. i ∷ [];
    };
    page_lsn = pos 0;
    pin_count = 0;
    is_dirty = false;
  };
  next_page = pos 2;
}

abbrev pub services : Services ℕ ℕ
services = record {
  unlock = λ locks txn_id lock_data_id. locks;
  calculate_gaps_on_table = λ locks lock_data_id. locks;
  delete_entry = λ tree key. some tree;
  insert_entry = λ tree key rid. some tree;
  raw = λ n. [];
}

abbrev pub name : List ℕ
name = 116 ∷ []

abbrev pub found : Database ℕ ℕ
found = record {
  fhs = λ _. file;
  tabs = λ _. some (record { name = name; cols = []; indexes = [] });
  ihs = λ _. none;
  locks = 0;
}

abbrev pub rid : Rid
rid = rid_at (pos 1) 2

abbrev updated : RmFile
updated = update_record file rid (9 ∷ []) none

abbrev changed : Database ℕ ℕ
changed = set_file services found name updated

abbrev txn : Txn
txn = record {
  locking = record {
    state = TransactionState.growing;
    txn_id = pos 1;
    lock_set = table_id (pos 3) ∷ [];
  };
  prev_lsn = pos 0;
  start_ts = pos 0;
  write_set =
      record {
        wtype = WType.update_tuple;
        tab_name = name;
        rid = rid;
        tuple = some (9 ∷ []);
        tuple_old = some (2 ∷ []);
      }
      ∷ [];
}

pub file-IsRoomy : IsRoomy 4 file
file-IsRoomy p = ((omega arith, (omega arith, tt)), omega arith)

updated-Writes : Writes file updated (pos 1) 2 (some (9 ∷ []))
unfolding is_set get_bucket get_bit
updated-Writes = update_record-Writes file rid (9 ∷ []) none refl

txn-IsLogged : IsLogged (λ _. 4) (records found) txn.write_set (records changed)
unfolding is_set get_bucket get_bit
txn-IsLogged = (
  records found,
  omega arith,
  (λ other q i. refl),
  (
    (
      2 ∷ [],
      9 ∷ [],
      refl,
      refl,
      refl,
      ap (λ x. record_at x (pos 1) 2) (file_here services found name updated) ∙ updated-Writes.0,
    ),
    set_file_outside services found name updated (pos 1) 2 (some (9 ∷ [])) updated-Writes,
  ),
)

abort-RolledBack_example :
    ((result : Txn × Option (LogManager × Disk ℕ) × Database ℕ ℕ)
      → abort services txn none changed ≡ some result
      → RolledBack services (λ _. 4) (records found) result)
    × (HaveNoIndex services changed.tabs txn.write_set
        → (result : Txn × Option (LogManager × Disk ℕ) × Database ℕ ℕ) × (abort services txn none
              changed
            ≡ some result))
abort-RolledBack_example =
    abort-RolledBack services (λ _. 4) (records found) txn none changed
      (set_file-AreRoomy services (λ _. 4) found name updated
        (update_record-IsRoomy 4 file rid file-IsRoomy (omega arith) (9 ∷ []) none)
        (λ _. file-IsRoomy))
      txn-IsLogged
