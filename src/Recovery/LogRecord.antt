-- ===== src/Recovery/LogRecord.antt =====
-- src/recovery/log_manager.h, the log records and their bytes, with the offsets of log_defs.h. A
-- record's value and table name are their bytes. The classes of begin, commit, abort and checkpoint
-- records have the header only; insert and delete records have one layout.
pub mod RoundTrip
use grmdb.Base.{ℕ, ◌+◌, ◌*◌, List, ◌++◌, length}
use grmdb.Base.Int.{ℤ, pos, negsuc, pos_part}
use grmdb.Defs.{Rid}
use grmdb.Recovery.LogType
use grmdb.Recovery.Bytes.{encode_le, encode_int, read_bytes, read_int, read_unsigned}

abbrev pub invalid_lsn : ℤ
invalid_lsn = negsuc 0

abbrev pub log_header_size : ℕ
log_header_size = 20

pub record LogRecord : Type 0 where
  pub log_type : ℤ
  pub lsn : ℤ
  pub log_tot_len : ℕ
  pub log_tid : ℤ
  pub prev_lsn : ℤ

unfoldable pub serialize : LogRecord → List ℕ
serialize r =
    encode_int r.log_type
    ++ (encode_int r.lsn
        ++ (encode_le 4 r.log_tot_len ++ (encode_int r.log_tid ++ encode_int r.prev_lsn)))

-- The header, and the bytes after it.
unfoldable pub deserialize : List ℕ → LogRecord × List ℕ
deserialize src =
    let (log_type, src) = read_int src in
    let (lsn, src) = read_int src in
    let (log_tot_len, src) = read_unsigned 4 src in
    let (log_tid, src) = read_int src in
    let (prev_lsn, src) = read_int src in
    (
      record {
        log_type = log_type;
        lsn = lsn;
        log_tot_len = log_tot_len;
        log_tid = log_tid;
        prev_lsn = prev_lsn;
      },
      src,
    )

-- The constructors of BeginLogRecord, CommitLogRecord, AbortLogRecord and CkpLogRecord.
unfoldable pub header_record : ℤ → ℤ → LogRecord
header_record log_type txn_id = record {
  log_type = log_type;
  lsn = invalid_lsn;
  log_tot_len = log_header_size;
  log_tid = txn_id;
  prev_lsn = invalid_lsn;
}

unfoldable pub begin_record : ℤ → LogRecord
unfolding header_record
begin_record txn_id = header_record LogType.begin txn_id

unfoldable pub commit_record : ℤ → LogRecord
unfolding header_record
commit_record txn_id = header_record LogType.commit txn_id

unfoldable pub abort_record : ℤ → LogRecord
unfolding header_record
abort_record txn_id = header_record LogType.abort txn_id

unfoldable pub ckp_record : LogRecord
unfolding header_record
ckp_record = header_record LogType.checkpoint (negsuc 0)

-- A record value: its size, and its bytes. A size that is not positive reads no bytes.
unfoldable pub serialize_value : List ℕ → List ℕ
serialize_value value = encode_int (pos (length value)) ++ value

unfoldable pub deserialize_value : List ℕ → List ℕ × List ℕ
deserialize_value src = let (size, src) = read_int src in read_bytes (pos_part size) src

-- What follows the values in a record of a tuple.
pub record Place : Type 0 where
  pub rid : Rid
  pub table_name : List ℕ
  pub first_free_page_no : ℤ
  pub num_pages : ℤ

unfoldable pub serialize_place : Place → List ℕ
serialize_place p =
    encode_int p.rid.page_no
    ++ (encode_int p.rid.slot_no
        ++ (encode_le 8 (length p.table_name)
            ++ (p.table_name ++ (encode_int p.first_free_page_no ++ encode_int p.num_pages))))

unfoldable pub deserialize_place : List ℕ → Place × List ℕ
deserialize_place src =
    let (page_no, src) = read_int src in
    let (slot_no, src) = read_int src in
    let (table_name_size, src) = read_unsigned 8 src in
    let (table_name, src) = read_bytes table_name_size src in
    let (first_free_page_no, src) = read_int src in
    let (num_pages, src) = read_int src in
    (
      record {
        rid = record { page_no = page_no; slot_no = slot_no };
        table_name = table_name;
        first_free_page_no = first_free_page_no;
        num_pages = num_pages;
      },
      src,
    )

-- InsertLogRecord and DeleteLogRecord: `value` is `insert_value_` or `delete_value_`.
pub record TupleLogRecord : Type 0 where
  pub header : LogRecord
  pub value : List ℕ
  pub place : Place

-- The constructors; the lengths add up in the order of the source.
unfoldable pub tuple_record : ℤ → ℤ → ℤ → List ℕ → Place → TupleLogRecord
tuple_record log_type txn_id prev_lsn value place = record {
  header = record {
    log_type = log_type;
    lsn = invalid_lsn;
    log_tot_len = log_header_size + 4 + length value + 8 + (8 + length place.table_name) + 4 + 4;
    log_tid = txn_id;
    prev_lsn = prev_lsn;
  };
  value = value;
  place = place;
}

unfoldable pub insert_record : ℤ → ℤ → List ℕ → Place → TupleLogRecord
unfolding tuple_record
insert_record txn_id prev_lsn value place = tuple_record LogType.insert txn_id prev_lsn value place

unfoldable pub delete_record : ℤ → ℤ → List ℕ → Place → TupleLogRecord
unfolding tuple_record
delete_record txn_id prev_lsn value place = tuple_record LogType.delete txn_id prev_lsn value place

unfoldable pub serialize_tuple : TupleLogRecord → List ℕ
serialize_tuple r = serialize r.header ++ (serialize_value r.value ++ serialize_place r.place)

unfoldable pub deserialize_tuple : List ℕ → TupleLogRecord × List ℕ
deserialize_tuple src =
    let (header, src) = deserialize src in
    let (value, src) = deserialize_value src in
    let (place, src) = deserialize_place src in
    (record { header = header; value = value; place = place }, src)

-- `serialize` and `deserialize` of DeleteLogRecord write and read the same fields in the same order.
unfoldable pub serialize_delete : TupleLogRecord → List ℕ
unfolding serialize_tuple
serialize_delete r = serialize_tuple r

unfoldable pub deserialize_delete : List ℕ → TupleLogRecord × List ℕ
unfolding deserialize_tuple
deserialize_delete src = deserialize_tuple src

pub record UpdateLogRecord : Type 0 where
  pub header : LogRecord
  pub old_value : List ℕ
  pub new_value : List ℕ
  pub place : Place

unfoldable pub update_record : ℤ → ℤ → List ℕ → List ℕ → Place → UpdateLogRecord
update_record txn_id prev_lsn old_value new_value place = record {
  header = record {
    log_type = LogType.update;
    lsn = invalid_lsn;
    log_tot_len =
        log_header_size
        + 4 * 2
        + (length old_value + length new_value)
        + 8
        + (8 + length place.table_name)
        + 4
        + 4;
    log_tid = txn_id;
    prev_lsn = prev_lsn;
  };
  old_value = old_value;
  new_value = new_value;
  place = place;
}

unfoldable pub serialize_update : UpdateLogRecord → List ℕ
serialize_update r =
    serialize r.header
    ++ (serialize_value r.old_value ++ (serialize_value r.new_value ++ serialize_place r.place))

unfoldable pub deserialize_update : List ℕ → UpdateLogRecord × List ℕ
deserialize_update src =
    let (header, src) = deserialize src in
    let (old_value, src) = deserialize_value src in
    let (new_value, src) = deserialize_value src in
    let (place, src) = deserialize_place src in
    (record { header = header; old_value = old_value; new_value = new_value; place = place }, src)
