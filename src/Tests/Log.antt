-- ===== src/Tests/Log.antt =====
-- Runs of the log manager, and of the log records.
use grmdb.Base.{ℕ, ◌≡◌, [], ◌∷◌, ◌++◌, none, arith}
use grmdb.Base.Int.{pos, negsuc}
use grmdb.Storage.Disk.{Disk}
use grmdb.Recovery.LogType
use grmdb.Recovery.LogManager.{LogManager}
use grmdb.Recovery.LogRecord.{
  Place, TupleLogRecord, UpdateLogRecord, tuple_record, update_record, serialize_update,
  deserialize_update,
}
use grmdb.Recovery.LogRecord.RoundTrip.{FitsPlace, deserialize_update-serialize_update}

abbrev disk : Disk ℕ
disk = record { blocks = λ fd offset. none; fd2pageno = λ fd. pos 1; log_file = 7 ∷ [] }

abbrev log_manager : LogManager
log_manager = record { global_lsn = pos 4; log_buffer = 1 ∷ 2 ∷ 3 ∷ []; persist_lsn = pos 1 }

abbrev place : Place
place = record {
  rid = record { page_no = pos 1; slot_no = pos 300 };
  table_name = 116 ∷ 49 ∷ [];
  first_free_page_no = negsuc 0;
  num_pages = pos 2;
}

place-FitsPlace : FitsPlace place
place-FitsPlace = record {
  page_no = omega arith;
  slot_no = omega arith;
  table_name = omega arith;
  first_free_page_no = omega arith;
  num_pages = omega arith;
}

abbrev inserted : TupleLogRecord
inserted = record {
  header = record {
    log_type = LogType.insert;
    lsn = negsuc 0;
    log_tot_len = 49;
    log_tid = pos 12;
    prev_lsn = negsuc 0;
  };
  value = 1 ∷ 2 ∷ 3 ∷ [];
  place = place;
}

abbrev updated : UpdateLogRecord
updated = record {
  header = record {
    log_type = LogType.update;
    lsn = pos 77;
    log_tot_len = 55;
    log_tid = pos 12;
    prev_lsn = pos 70;
  };
  old_value = 1 ∷ 2 ∷ 3 ∷ [];
  new_value = 4 ∷ 2 ∷ 3 ∷ [];
  place = place;
}

deserialize_update-serialize_update_example :
    deserialize_update (serialize_update updated ++ 5 ∷ []) ≡ (updated, 5 ∷ [])
deserialize_update-serialize_update_example =
    deserialize_update-serialize_update updated (5 ∷ [])
      (record {
        log_type = omega arith;
        lsn = omega arith;
        log_tot_len = omega arith;
        log_tid = omega arith;
        prev_lsn = omega arith;
      })
      (omega arith) (omega arith) place-FitsPlace

abbrev inserting : TupleLogRecord
inserting = tuple_record LogType.insert (pos 12) (negsuc 0) (1 ∷ 2 ∷ 3 ∷ []) place

abbrev updating : UpdateLogRecord
updating = update_record (pos 12) (pos 70) (1 ∷ []) (2 ∷ []) place
