-- ===== src/Storage/BufferPool/Wal.antt =====
-- The write-ahead rule of update_page: a page goes to disk after the log record of its last change.
-- A change stamps its page with `get_lsn()`, which is the number that the change's record then gets.
use grmdb.Base.{
  ap, inl, inr, Bool-cases, append-nil, ℕ, ◌<◌, ◌≡◌, refl, sym, ◌∙◌, List, ◌++◌, some, true, false,
  arith, length, ltb, if◌then◌else◌,
}
use grmdb.Base.Int.{ℤ, ltb_ℤ}
use grmdb.Storage.Disk.{Disk}
use grmdb.Recovery.LogManager.{LogManager, flush_log_to_disk, append_record}
use grmdb.Recovery.LogManager.Append.{whole_log, flush_log_to_disk-Flushed}
use grmdb.Storage.BufferPool.{BufferPool, flush_log}

module _ {D : Type 0} (zeroed : D) (page_lsn : D → ℤ) where
  -- What the log manager and the disk of a pool become when a page is about to be replaced.
  flushed :
      (p : BufferPool D) (x : D) (lm : LogManager)
      → p.log_manager ≡ some lm
      → (flush_log zeroed page_lsn p x).disk
        ≡ (if ltb_ℤ lm.persist_lsn (page_lsn x) then (flush_log_to_disk lm p.disk).1 else p.disk)
  unfolding flush_log
  flushed p x lm e = elim (Bool-cases (ltb_ℤ lm.persist_lsn (page_lsn x))) [
    | inl younger ↦ rw (e, flush_log, younger) refl
    | inr older ↦ rw (e, flush_log, older) refl
  ]

  -- Before a page is replaced whose LSN is above the persistent LSN, all of the log goes to disk;
  -- for any other page the log on disk stays as it is.
  pub flush_log-whole_log :
      (p : BufferPool D) (x : D) (lm : LogManager)
      → p.log_manager ≡ some lm
      → (flush_log zeroed page_lsn p x).disk.log_file
        ≡ (if ltb_ℤ lm.persist_lsn (page_lsn x) then whole_log lm p.disk else p.disk.log_file)
  flush_log-whole_log p x lm e =
      let (log, empty, _, _) = flush_log_to_disk-Flushed lm p.disk in
      let file = (flush_log_to_disk lm p.disk).1.log_file in
      elim (Bool-cases (ltb_ℤ lm.persist_lsn (page_lsn x))) [
        | inl younger ↦
            rw (flushed p x lm e, younger)
              (sym (append-nil file) ∙ ap (λ l. file ++ l) (sym empty) ∙ log)
        | inr older ↦ rw (flushed p x lm e, older) refl
      ]

  older_page :
      (p : BufferPool D) (x : D) (lm : LogManager)
      → p.log_manager ≡ some lm
      → ltb_ℤ lm.persist_lsn (page_lsn x) ≡ false
      → flush_log zeroed page_lsn p x ≡ p
  unfolding flush_log
  older_page p x lm e older = simp (e, flush_log, older)

  -- After a flush of a buffer with records in it, the next record is appended and a page is stamped
  -- with that record's number. When this page is replaced the log is not flushed, although its
  -- record is in the buffer alone: the persistent LSN is the number of the next record.
  pub flush_log_misses_next_record :
      (p : BufferPool D) (x : D) (lm : LogManager) (disk : Disk D) (serialize : ℤ → List ℕ)
      → 0 < length lm.log_buffer
      → p.log_manager ≡ some (append_record (flush_log_to_disk lm disk).0 serialize)
      → page_lsn x ≡ lm.global_lsn
      → (flush_log zeroed page_lsn p x ≡ p)
        × ((append_record (flush_log_to_disk lm disk).0 serialize).log_buffer
            ≡ serialize lm.global_lsn)
  unfolding flush_log flush_log_to_disk append_record
  flush_log_misses_next_record p x lm disk serialize some_log logged stamped =
      let full : ltb 0 (length lm.log_buffer) ≡ true = ground arith in
      let (lm', disk') = flush_log_to_disk lm disk in
      let number : lm'.global_lsn ≡ lm.global_lsn = rw full refl in
      let persistent : lm'.persist_lsn ≡ lm.global_lsn = rw full refl in
      (
        older_page p x (append_record lm' serialize) logged
            (rw (persistent, stamped) (ground arith)),
        rw full refl,
      )
