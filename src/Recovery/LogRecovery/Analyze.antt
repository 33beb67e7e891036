-- ===== src/Recovery/LogRecovery/Analyze.antt =====
-- The table of unfinished transactions that `analyze` leaves.
use grmdb.Base.{
  ℕ, ◌≡◌, ◌≢◌, refl, sym, ap, ◌∙◌, List, [], ◌∷◌, ◌++◌, Option, none, some, if_pos, if_neg, lookup,
  lookup-put, lookup-erase, put, erase,
}
use grmdb.Base.Int.{ℤ, ℤ_discrete}
use grmdb.Recovery.LogRecovery.{
  LogEntry, begun, committed, aborted, updated, inserted, deleted, checkpoint_at, header_of,
  RecoveryManager, note_change, analyze_record, analyze,
}

module _ (get_fd : List ℕ → ℤ) (tid : ℤ) where
  -- No record of the transaction, nor a checkpoint.
  abbrev pub Quiet : List LogEntry → Type 0
  Quiet [] = Unit
  Quiet (checkpoint_at header ∷ log) = ⊥
  Quiet (entry ∷ log) = ((header_of entry).log_tid ≢ tid) × Quiet log

  put_other :
      (j v : ℤ) (att : List (ℤ × ℤ))
      → j ≢ tid
      → lookup ℤ_discrete tid (put ℤ_discrete j v att) ≡ lookup ℤ_discrete tid att
  put_other j v att other = lookup-put ℤ_discrete j tid v att ∙ if_neg (ℤ_discrete j tid) other _ _

  erase_other :
      (j : ℤ) (att : List (ℤ × ℤ))
      → j ≢ tid
      → lookup ℤ_discrete tid (erase ℤ_discrete j att) ≡ lookup ℤ_discrete tid att
  erase_other j att other = lookup-erase ℤ_discrete j tid att ∙ if_neg (ℤ_discrete j tid) other _ _

  -- What is quiet leaves the entry of the transaction as it is.
  analyze-Quiet :
      (log : List LogEntry) (r : RecoveryManager)
      → Quiet log
      → lookup ℤ_discrete tid (analyze get_fd r log).att ≡ lookup ℤ_discrete tid r.att
  unfolding analyze analyze_record note_change
  analyze-Quiet [] r quiet = refl
  analyze-Quiet (begun header ∷ log) r (other, quiet) =
      analyze-Quiet log _ quiet ∙ put_other header.log_tid header.lsn r.att other
  analyze-Quiet (committed header ∷ log) r (other, quiet) =
      analyze-Quiet log _ quiet ∙ erase_other header.log_tid r.att other
  analyze-Quiet (aborted header ∷ log) r (other, quiet) = analyze-Quiet log _ quiet
  analyze-Quiet (updated e ∷ log) r (other, quiet) =
      analyze-Quiet log _ quiet ∙ put_other e.header.log_tid e.header.lsn r.att other
  analyze-Quiet (inserted e ∷ log) r (other, quiet) =
      analyze-Quiet log _ quiet ∙ put_other e.header.log_tid e.header.lsn r.att other
  analyze-Quiet (deleted e ∷ log) r (other, quiet) =
      analyze-Quiet log _ quiet ∙ put_other e.header.log_tid e.header.lsn r.att other
  analyze-Quiet (checkpoint_at header ∷ log) r quiet = absurd quiet

  analyze-append :
      (before after : List LogEntry) (r : RecoveryManager)
      → analyze get_fd r (before ++ after) ≡ analyze get_fd (analyze get_fd r before) after
  unfolding analyze
  analyze-append [] after r = refl
  analyze-append (entry ∷ before) after r = analyze-append before after _

  -- What the last record of a transaction leaves in the table: nothing, or its number.
  abbrev pub Leaves : LogEntry → Option ℤ → Type 0
  Leaves (committed header) o = (header.log_tid ≡ tid) × (o ≡ none)
  Leaves (begun header) o = (header.log_tid ≡ tid) × (o ≡ some header.lsn)
  Leaves (updated e) o = (e.header.log_tid ≡ tid) × (o ≡ some e.header.lsn)
  Leaves (inserted e) o = (e.header.log_tid ≡ tid) × (o ≡ some e.header.lsn)
  Leaves (deleted e) o = (e.header.log_tid ≡ tid) × (o ≡ some e.header.lsn)
  Leaves _ o = ⊥

  put_here :
      (j v : ℤ) (att : List (ℤ × ℤ))
      → j ≡ tid
      → lookup ℤ_discrete tid (put ℤ_discrete j v att) ≡ some v
  put_here j v att e = lookup-put ℤ_discrete j tid v att ∙ if_pos (ℤ_discrete j tid) e _ _

  analyze_record-Leaves :
      (entry : LogEntry) (o : Option ℤ) (r : RecoveryManager)
      → Leaves entry o
      → lookup ℤ_discrete tid (analyze_record get_fd r entry).att ≡ o
  unfolding analyze_record note_change
  analyze_record-Leaves (committed header) o r (e, is) =
      lookup-erase ℤ_discrete header.log_tid tid r.att
      ∙ if_pos (ℤ_discrete header.log_tid tid) e _ _
      ∙ sym is
  analyze_record-Leaves (begun header) o r (e, is) =
      put_here header.log_tid header.lsn r.att e ∙ sym is
  analyze_record-Leaves (updated u) o r (e, is) =
      put_here u.header.log_tid u.header.lsn r.att e ∙ sym is
  analyze_record-Leaves (inserted u) o r (e, is) =
      put_here u.header.log_tid u.header.lsn r.att e ∙ sym is
  analyze_record-Leaves (deleted u) o r (e, is) =
      put_here u.header.log_tid u.header.lsn r.att e ∙ sym is
  analyze_record-Leaves (aborted header) o r last = absurd last
  analyze_record-Leaves (checkpoint_at header) o r last = absurd last

  -- After `analyze` a transaction whose last record is its commit is not in the table of unfinished
  -- transactions, and one whose last record is its begin or a change is there with the number of
  -- that record, unless a checkpoint follows.
  pub analyze_last_record :
      (before after : List LogEntry) (entry : LogEntry) (o : Option ℤ) (r : RecoveryManager)
      → Leaves entry o
      → Quiet after
      → lookup ℤ_discrete tid (analyze get_fd r (before ++ entry ∷ after)).att ≡ o
  unfolding analyze
  analyze_last_record before after entry o r last quiet =
      ap (λ x. lookup ℤ_discrete tid x.att) (analyze-append before (entry ∷ after) r)
      ∙ analyze-Quiet after _ quiet
      ∙ analyze_record-Leaves entry o _ last
