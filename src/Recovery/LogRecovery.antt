-- ===== src/Recovery/LogRecovery.antt =====
-- RecoveryManager of src/recovery/log_recovery.cpp and .h: analyze, redo and undo. The log is its
-- records, each read at its offset as LogRecord reads it; the files are those of the tables, by
-- name. An index is dropped and built again after the undo, which is left out.
pub mod Redo
pub mod Analyze
pub mod Undo
use grmdb.Base.{
  ℕ, zero, suc, ◌+◌, List, [], ◌∷◌, Bool, true, false, ◌&&◌, not, Option, none, some, ite,
  if◌then◌else◌, ℕ_discrete, lookup, put, erase, remove, map, holds, ◌-◌,
}
use grmdb.Base.Int.{ℤ, pos, negsuc, incr, pos_part, ltb_ℤ, ℤ_discrete}
use grmdb.Storage.Disk.{PageId, PageId_discrete}
use grmdb.System.Meta.{name_discrete}
use grmdb.Record.File.{
  RmFile, update_frame, fetch_page_handle, unpin_dirty, insert_redo, update_redo, delete_redo,
  insert_undo, update_undo, delete_undo,
}
use grmdb.Recovery.LogRecord.{LogRecord, Place, TupleLogRecord, UpdateLogRecord}

-- The records by type.
pub data LogEntry : Type 0 where
  begun : LogRecord → LogEntry
  committed : LogRecord → LogEntry
  aborted : LogRecord → LogEntry
  updated : UpdateLogRecord → LogEntry
  inserted : TupleLogRecord → LogEntry
  deleted : TupleLogRecord → LogEntry
  checkpoint_at : LogRecord → LogEntry

abbrev pub header_of : LogEntry → LogRecord
header_of (begun header) = header
header_of (committed header) = header
header_of (aborted header) = header
header_of (updated log) = log.header
header_of (inserted log) = log.header
header_of (deleted log) = log.header
header_of (checkpoint_at header) = header

-- The table of unfinished transactions, that of dirty pages, and where the records are.
pub record RecoveryManager : Type 0 where
  pub att : List (ℤ × ℤ)
  pub dpt : List (PageId × ℤ)
  pub log_offsets : List (ℤ × LogEntry)
  pub last_lsn : ℤ
  pub aborted_tids : List ℤ

abbrev pub insert_absent : PageId → ℤ → List (PageId × ℤ) → List (PageId × ℤ)
insert_absent page_id lsn dpt = elim (lookup PageId_discrete page_id dpt) [
  | none ↦ put PageId_discrete page_id lsn dpt
  | some _ ↦ dpt
]

abbrev pub erase_all : List ℤ → List (ℤ × ℤ) → List (ℤ × ℤ)
erase_all [] att = att
erase_all (tid ∷ tids) att = erase_all tids (erase ℤ_discrete tid att)

-- `unpin_page` with the dirty flag not set.
unfoldable pub unpin_clean : RmFile → ℤ → RmFile
unfolding update_frame
unpin_clean file p = update_frame file p (λ frame. record frame { pin_count = frame.pin_count - 1 })

-- A change of the file of a table.
unfoldable pub at_table : List ℕ → (RmFile → RmFile) → (List ℕ → RmFile) → List ℕ → RmFile
at_table name change files other =
    if holds (name_discrete name other) then change (files name) else files other

-- The record at a number; `log_offsets_` gives offset 0 for one that it does not have.
abbrev pub entry_at : RecoveryManager → LogEntry → ℤ → LogEntry
entry_at r at_zero lsn = elim (lookup ℤ_discrete lsn r.log_offsets) [
  | none ↦ at_zero
  | some entry ↦ entry
]

abbrev pub first_lsn : List (PageId × ℤ) → ℤ → ℤ
first_lsn [] lsn = lsn
first_lsn ((_, other) ∷ dpt) lsn = first_lsn dpt (if ltb_ℤ other lsn then other else lsn)

-- The greatest of the queue.
abbrev pub last_lsn_of : List ℤ → ℤ → ℤ
last_lsn_of [] lsn = lsn
last_lsn_of (other ∷ queue) lsn = last_lsn_of queue (if ltb_ℤ lsn other then other else lsn)

-- The file descriptor of a table. Every table that the log names is open: the exception of
-- `fhs_.at` for one that is not is left out, here and in `at_table`.
module _ (get_fd : List ℕ → ℤ) where
  abbrev pub page_of : Place → PageId
  page_of place = record { fd = get_fd place.table_name; page_no = place.rid.page_no }

  -- A record that changes a page.
  unfoldable pub note_change : RecoveryManager → LogRecord → Place → RecoveryManager
  note_change r header place = record r {
    dpt = insert_absent (page_of place) header.lsn r.dpt;
    att = put ℤ_discrete header.log_tid header.lsn r.att;
  }

  unfoldable pub analyze_record : RecoveryManager → LogEntry → RecoveryManager
  unfolding note_change
  analyze_record r (begun header) = record r {
    att = put ℤ_discrete header.log_tid header.lsn r.att;
  }
  analyze_record r (committed header) = record r { att = erase ℤ_discrete header.log_tid r.att }
  analyze_record r (aborted header) = record r { aborted_tids = header.log_tid ∷ r.aborted_tids }
  analyze_record r (updated log) = note_change r log.header log.place
  analyze_record r (inserted log) = note_change r log.header log.place
  analyze_record r (deleted log) = note_change r log.header log.place
  analyze_record r (checkpoint_at header) = record r {
    dpt = [];
    att = erase_all r.aborted_tids r.att;
    aborted_tids = [];
  }

  -- `log_offsets_` keeps the first record that it is given for a number.
  unfoldable pub analyze : RecoveryManager → List LogEntry → RecoveryManager
  unfolding analyze_record
  analyze r [] = r
  analyze r (entry ∷ log) =
      let lsn = (header_of entry).lsn in
      let offsets : List (ℤ × LogEntry) = elim (lookup ℤ_discrete lsn r.log_offsets) [
        | none ↦ put ℤ_discrete lsn entry r.log_offsets
        | some _ ↦ r.log_offsets
      ] in
      analyze (analyze_record (record r { log_offsets = offsets; last_lsn = lsn }) entry) log

  -- Redo of one record in its file, where its page is dirty: the page is fetched and unpinned around
  -- it, and left as it is where it has a later LSN.
  module _ (dpt : List (PageId × ℤ)) (lsn : ℤ) where
    unfoldable pub redo_on : (RmFile → RmFile) → Place → RmFile → RmFile
    unfolding fetch_page_handle unpin_dirty unpin_clean
    redo_on change place file =
        let p = place.rid.page_no in
        let fetched = fetch_page_handle file p in
        elim (lookup PageId_discrete (page_of place) dpt) [
          | none ↦ file
          | some _ ↦
              if not (ltb_ℤ (fetched.frames p).page_lsn lsn)
              then unpin_clean fetched p
              else unpin_dirty (change fetched) p
        ]

    -- The files are those of the tables, by name.
    unfoldable pub redo_record : LogEntry → (List ℕ → RmFile) → List ℕ → RmFile
    unfolding redo_on insert_redo update_redo delete_redo at_table
    redo_record (inserted log) files =
        at_table log.place.table_name (redo_on (λ file. insert_redo file log) log.place) files
    redo_record (deleted log) files =
        at_table log.place.table_name (redo_on (λ file. delete_redo file log) log.place) files
    redo_record (updated log) files =
        at_table log.place.table_name (redo_on (λ file. update_redo file log) log.place) files
    redo_record (begun header) files = files
    redo_record (committed header) files = files
    redo_record (aborted header) files = files
    redo_record (checkpoint_at header) files = files

  -- The numbers from lsn on, as many as the rounds.
  unfoldable pub redo_from :
      RecoveryManager → LogEntry → ℕ → ℤ → (List ℕ → RmFile) → List ℕ → RmFile
  unfolding redo_record
  redo_from r at_zero zero lsn files = files
  redo_from r at_zero (suc rounds) lsn files =
      redo_from r at_zero rounds (incr lsn) (redo_record r.dpt lsn (entry_at r at_zero lsn) files)

  unfoldable pub redo : RecoveryManager → LogEntry → (List ℕ → RmFile) → List ℕ → RmFile
  unfolding redo_from
  redo r at_zero files = elim r.dpt [
    | [] ↦ files
    | (_, lsn) ∷ dpt ↦
        let first = first_lsn dpt lsn in
        redo_from r at_zero (pos_part (incr r.last_lsn) - pos_part first) first files
  ]

-- One step of the loop of `undo` for the record at the top of the queue: the files and the queue.
-- A commit, an abort or a checkpoint there is not taken off the queue.
unfoldable pub undo_record : ℤ → LogEntry → List ℤ → (List ℕ → RmFile) → List ℤ × (List ℕ → RmFile)
unfolding insert_undo update_undo delete_undo at_table
undo_record top (inserted log) rest files = (
  log.header.prev_lsn ∷ rest,
  at_table log.place.table_name (λ file. insert_undo file log.place.rid) files,
)
undo_record top (updated log) rest files = (
  log.header.prev_lsn ∷ rest,
  at_table log.place.table_name (λ file. update_undo file log.place.rid log.old_value) files,
)
undo_record top (deleted log) rest files = (
  log.header.prev_lsn ∷ rest,
  at_table log.place.table_name (λ file. delete_undo file log.place.rid log.value) files,
)
undo_record top (begun header) rest files = (rest, files)
undo_record top (committed header) rest files = (top ∷ rest, files)
undo_record top (aborted header) rest files = (top ∷ rest, files)
undo_record top (checkpoint_at header) rest files = (top ∷ rest, files)

-- `none` where the fuel runs out, as it does where the loop of the source does not end.
unfoldable pub undo_loop :
    ℕ → RecoveryManager → LogEntry → List ℤ → (List ℕ → RmFile) → Option (List ℕ → RmFile)
unfolding undo_record
undo_loop zero r at_zero queue files = none
undo_loop (suc fuel) r at_zero [] files = some files
undo_loop (suc fuel) r at_zero (lsn ∷ queue) files =
    let top = last_lsn_of queue lsn in
    let (rest, undone) =
      undo_record top (entry_at r at_zero top) (remove ℤ_discrete top (lsn ∷ queue)) files in
    let above = undo_loop fuel r at_zero rest undone in
    ite (ℤ_discrete top (negsuc 0)) (some files) above

unfoldable pub undo : ℕ → RecoveryManager → LogEntry → (List ℕ → RmFile) → Option (List ℕ → RmFile)
unfolding undo_loop
undo fuel r at_zero files = undo_loop fuel r at_zero (map (λ entry. entry.1) r.att) files
