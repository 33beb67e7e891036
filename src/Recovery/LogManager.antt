-- ===== src/Recovery/LogManager.antt =====
-- src/recovery/log_manager.cpp and LogBuffer, LogManager of log_manager.h: the log buffer and the
-- numbers that order the log. The buffer is the bytes up to `offset_`; a record is handed over as
-- its length and, given its number, the bytes that its `serialize` writes.
pub mod Append
use grmdb.Base.{ℕ, zero, suc, ◌+◌, ◌*◌, List, [], ◌∷◌, ◌++◌, Bool, if◌then◌else◌, ltb, length}
use grmdb.Base.Int.{ℤ, pos, incr}
use grmdb.Storage.Disk.{Disk, write_log}

abbrev pub log_buffer_size : ℕ
log_buffer_size = 1024 * 4096

pub record LogManager : Type 0 where
  pub global_lsn : ℤ
  pub log_buffer : List ℕ
  pub persist_lsn : ℤ

-- `persist_lsn_` is left as it is found.
unfoldable pub init : ℤ → LogManager
init garbage = record { global_lsn = pos 0; log_buffer = []; persist_lsn = garbage }

unfoldable pub is_full : LogManager → ℕ → Bool
is_full lm append_size = ltb log_buffer_size (length lm.log_buffer + append_size)

unfoldable pub append_record : LogManager → (ℤ → List ℕ) → LogManager
append_record lm serialize = record lm {
  global_lsn = incr lm.global_lsn;
  log_buffer = lm.log_buffer ++ serialize lm.global_lsn;
}

module _ {D : Type 0} where
  unfoldable pub flush_log_to_disk : LogManager → Disk D → LogManager × Disk D
  flush_log_to_disk lm disk =
      if ltb 0 (length lm.log_buffer)
      then (
        record lm { log_buffer = []; persist_lsn = lm.global_lsn },
        write_log disk lm.log_buffer,
      )
      else (lm, disk)

  -- The buffer is flushed if the record does not fit.
  unfoldable pub make_room : LogManager → Disk D → ℕ → LogManager × Disk D
  make_room lm disk log_tot_len =
      if is_full lm log_tot_len then flush_log_to_disk lm disk else (lm, disk)

  -- The record's number, the log manager and the disk. In the source the test of `is_full` and the
  -- flush come before the latch is taken; here the call is one step.
  unfoldable pub add_log_to_buffer :
      LogManager → Disk D → ℕ → (ℤ → List ℕ) → ℤ × LogManager × Disk D
  unfolding append_record
  add_log_to_buffer lm disk log_tot_len serialize =
      let (lm', disk') = make_room lm disk log_tot_len in
      (lm'.global_lsn, append_record lm' serialize, disk')
