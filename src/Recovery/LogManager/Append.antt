-- ===== src/Recovery/LogManager/Append.antt =====
-- What the log holds: the bytes on disk followed by those in the buffer.
use grmdb.Base.{ℕ, ◌+◌, ◌≤◌, ◌≡◌, List, [], ◌∷◌, ◌++◌, arith, length, append-nil}
use grmdb.Base.Int.{ℤ, incr}
use grmdb.Storage.Disk.{Disk, write_log}
use grmdb.Recovery.LogManager.{LogManager, log_buffer_size, flush_log_to_disk}

module _ {D : Type 0} where
  -- All of the log, on disk and in the buffer.
  abbrev pub whole_log : LogManager → Disk D → List ℕ
  whole_log lm disk = disk.log_file ++ lm.log_buffer

  abbrev pub Flushed : LogManager → Disk D → LogManager × Disk D → Type 0
  Flushed lm disk (lm', disk') =
      (whole_log lm' disk' ≡ whole_log lm disk)
      × (lm'.log_buffer ≡ [])
      × (lm'.global_lsn ≡ lm.global_lsn)
      × (disk'.blocks ≡ disk.blocks)

  by_buffer :
      (lm : LogManager) (buffer : List ℕ) (disk : Disk D)
      → Flushed
          (record lm { log_buffer = buffer })
          disk
          (flush_log_to_disk (record lm { log_buffer = buffer }) disk)
  unfolding flush_log_to_disk write_log
  by_buffer lm [] disk = ground arith
  by_buffer lm (b ∷ buffer) disk = ground (arith, append-nil (disk.log_file ++ b ∷ buffer))

  -- A flush loses nothing of the log, leaves the buffer empty, and writes no page.
  pub flush_log_to_disk-Flushed :
      (lm : LogManager) (disk : Disk D) → Flushed lm disk (flush_log_to_disk lm disk)
  flush_log_to_disk-Flushed lm disk = by_buffer lm lm.log_buffer disk

  abbrev pub Added : LogManager → Disk D → (ℤ → List ℕ) → ℤ × LogManager × Disk D → Type 0
  Added lm disk serialize (lsn, lm', disk') =
      (lsn ≡ lm.global_lsn)
      × (lm'.global_lsn ≡ incr lsn)
      × (whole_log lm' disk' ≡ whole_log lm disk ++ serialize lsn)
      × (length lm'.log_buffer ≤ log_buffer_size)
      × (disk'.blocks ≡ disk.blocks)

  -- The log is the same, its next number too, and the record fits.
  abbrev Roomed : LogManager → Disk D → ℕ → LogManager × Disk D → Type 0
  Roomed lm disk log_tot_len (lm', disk') =
      (whole_log lm' disk' ≡ whole_log lm disk)
      × (length lm'.log_buffer + log_tot_len ≤ log_buffer_size)
      × (lm'.global_lsn ≡ lm.global_lsn)
      × (disk'.blocks ≡ disk.blocks)
