-- ===== src/Recovery/LogRecord/RoundTrip.antt =====
-- Reading a log record back from the bytes that were written of it.
use grmdb.Base.{ℕ, ◌+◌, ◌^◌, ◌<◌, ◌≡◌, refl, List, ◌++◌, arith, length, length-append, append_assoc}
use grmdb.Base.Int.{ℤ, pos}
use grmdb.Recovery.Bytes.{
  FitsInt, read_int-encode_int, read_unsigned-encode_le, read_bytes-append, length-encode_int,
  length-encode_le,
}
use grmdb.Recovery.LogRecord.{
  LogRecord, Place, TupleLogRecord, UpdateLogRecord, serialize, deserialize, serialize_value,
  deserialize_value, serialize_place, deserialize_place, serialize_tuple, deserialize_tuple,
  serialize_delete, deserialize_delete, serialize_update, deserialize_update, tuple_record,
  update_record,
}

-- The numbers of a header, a value and a place are in the range of their C++ types.
pub record FitsHeader (r : LogRecord) : Type 0 where
  pub log_type : FitsInt r.log_type
  pub lsn : FitsInt r.lsn
  pub log_tot_len : r.log_tot_len < 2 ^ 32
  pub log_tid : FitsInt r.log_tid
  pub prev_lsn : FitsInt r.prev_lsn

pub record FitsPlace (p : Place) : Type 0 where
  pub page_no : FitsInt p.rid.page_no
  pub slot_no : FitsInt p.rid.slot_no
  pub table_name : length p.table_name < 2 ^ 31
  pub first_free_page_no : FitsInt p.first_free_page_no
  pub num_pages : FitsInt p.num_pages

pub deserialize-serialize :
    (r : LogRecord) (rest : List ℕ) → FitsHeader r → deserialize (serialize r ++ rest) ≡ (r, rest)
unfolding deserialize serialize
deserialize-serialize r rest h = rw (
  append_assoc,
  append_assoc,
  append_assoc,
  append_assoc,
  read_int-encode_int r.log_type _ h.log_type,
  read_int-encode_int r.lsn _ h.lsn,
  read_unsigned-encode_le 4 r.log_tot_len _ h.log_tot_len,
  read_int-encode_int r.log_tid _ h.log_tid,
  read_int-encode_int r.prev_lsn rest h.prev_lsn,
)

value-round_trip :
    (v rest : List ℕ)
    → length v < 2 ^ 31
    → deserialize_value (serialize_value v ++ rest) ≡ (v, rest)
unfolding deserialize_value serialize_value
value-round_trip v rest h = rw (
  append_assoc,
  read_int-encode_int (pos (length v)) _ h,
  read_bytes-append (length v) v rest refl,
)

place-round_trip :
    (p : Place) (rest : List ℕ)
    → FitsPlace p
    → deserialize_place (serialize_place p ++ rest) ≡ (p, rest)
unfolding deserialize_place serialize_place
place-round_trip p rest h = rw (
  append_assoc,
  append_assoc,
  append_assoc,
  append_assoc,
  append_assoc,
  read_int-encode_int p.rid.page_no _ h.page_no,
  read_int-encode_int p.rid.slot_no _ h.slot_no,
  read_unsigned-encode_le 8 (length p.table_name) _ (omega arith),
  read_bytes-append (length p.table_name) p.table_name _ refl,
  read_int-encode_int p.first_free_page_no _ h.first_free_page_no,
  read_int-encode_int p.num_pages rest h.num_pages,
)

tuple-round_trip :
    (r : TupleLogRecord) (rest : List ℕ)
    → FitsHeader r.header
    → length r.value < 2 ^ 31
    → FitsPlace r.place
    → deserialize_tuple (serialize_tuple r ++ rest) ≡ (r, rest)
unfolding deserialize_tuple serialize_tuple
tuple-round_trip r rest h hv hp = rw (
  append_assoc,
  append_assoc,
  deserialize-serialize r.header _ h,
  value-round_trip r.value _ hv,
  place-round_trip r.place rest hp,
)

-- An insert or delete record whose numbers and lengths are in the range of their types reads back
-- as what was written, and leaves the bytes after it.
pub deserialize_tuple-serialize_tuple :
    (r : TupleLogRecord) (rest : List ℕ)
    → FitsHeader r.header
    → length r.value < 2 ^ 31
    → FitsPlace r.place
    → (deserialize_tuple (serialize_tuple r ++ rest) ≡ (r, rest))
      × (deserialize_delete (serialize_delete r ++ rest) ≡ (r, rest))
unfolding deserialize_delete serialize_delete
deserialize_tuple-serialize_tuple r rest h hv hp =
    (tuple-round_trip r rest h hv hp, tuple-round_trip r rest h hv hp)

-- An update record whose numbers and lengths are in the range of their types reads back as what
-- was written, and leaves the bytes after it.
pub deserialize_update-serialize_update :
    (r : UpdateLogRecord) (rest : List ℕ)
    → FitsHeader r.header
    → length r.old_value < 2 ^ 31
    → length r.new_value < 2 ^ 31
    → FitsPlace r.place
    → deserialize_update (serialize_update r ++ rest) ≡ (r, rest)
unfolding deserialize_update serialize_update
deserialize_update-serialize_update r rest h ho hn hp = rw (
  append_assoc,
  append_assoc,
  append_assoc,
  deserialize-serialize r.header _ h,
  value-round_trip r.old_value _ ho,
  value-round_trip r.new_value _ hn,
  place-round_trip r.place rest hp,
)

length-serialize : (r : LogRecord) → length (serialize r) ≡ 20
unfolding serialize
length-serialize r = rw (
  length-append,
  length-append,
  length-append,
  length-append,
  length-encode_int,
  length-encode_int r.lsn,
  length-encode_le 4 r.log_tot_len,
  length-encode_int r.log_tid,
  length-encode_int r.prev_lsn,
)

length-serialize_value : (v : List ℕ) → length (serialize_value v) ≡ 4 + length v
unfolding serialize_value
length-serialize_value v = rw (length-append, length-encode_int)

length-serialize_place : (p : Place) → length (serialize_place p) ≡ 24 + length p.table_name
unfolding serialize_place
length-serialize_place p =
    rw
      (
        length-append,
        length-append,
        length-append,
        length-append,
        length-append,
        length-encode_int,
        length-encode_int p.rid.slot_no,
        length-encode_le,
        length-encode_int p.first_free_page_no,
        length-encode_int p.num_pages,
      )
      (omega arith)

-- The length that the constructor of an insert or delete record computes is that of its bytes,
-- whatever number the log manager gives the record.
pub length-serialize_tuple :
    (log_type txn_id prev_lsn lsn : ℤ) (value : List ℕ) (place : Place)
    → let r = tuple_record log_type txn_id prev_lsn value place in
      length (serialize_tuple (record r { header = record r.header { lsn = lsn } }))
      ≡ r.header.log_tot_len
unfolding serialize_tuple tuple_record
length-serialize_tuple log_type txn_id prev_lsn lsn value place =
    rw (length-append, length-append, length-serialize)
      (omega (arith, length-serialize_value value, length-serialize_place place))

-- The length that the constructor of an update record computes is that of its bytes, whatever
-- number the log manager gives the record.
pub length-serialize_update :
    (txn_id prev_lsn lsn : ℤ) (old_value new_value : List ℕ) (place : Place)
    → let r = update_record txn_id prev_lsn old_value new_value place in
      length (serialize_update (record r { header = record r.header { lsn = lsn } }))
      ≡ r.header.log_tot_len
unfolding serialize_update update_record
length-serialize_update txn_id prev_lsn lsn old_value new_value place =
    rw (length-append, length-append, length-append, length-serialize)
      (omega (
        arith,
        length-serialize_value old_value,
        length-serialize_value new_value,
        length-serialize_place place,
      ))
