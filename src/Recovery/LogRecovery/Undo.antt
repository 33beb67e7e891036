-- ===== src/Recovery/LogRecovery/Undo.antt =====
-- The loop of `undo` ends.
use grmdb.Base.{
  ℕ, zero, suc, ◌+◌, ◌<◌, ◌≡◌, ◌≢◌, refl, sym, ap, subst, ◌∙◌, List, [], ◌∷◌, some, if_pos, if_neg,
  inl, inr, ◌≤◌, remove, map, Bool-cases, arith, ◌⊎◌, if◌then◌else◌,
}
use grmdb.Base.Int.{ℤ, negsuc, ltb_ℤ, ℤ_discrete}
use grmdb.Record.File.{RmFile}
use grmdb.Recovery.LogRecovery.{
  LogEntry, begun, committed, aborted, updated, inserted, deleted, checkpoint_at, RecoveryManager,
  entry_at, last_lsn_of, undo_record, undo_loop, undo,
}

abbrev IsIn : ℤ → List ℤ → Type 0
IsIn x [] = ⊥
IsIn x (y ∷ ys) = (y ≡ x) ⊎ IsIn x ys

last_lsn_of-IsIn : (queue : List ℤ) (lsn : ℤ) → IsIn (last_lsn_of queue lsn) (lsn ∷ queue)
last_lsn_of-IsIn [] lsn = inl refl
last_lsn_of-IsIn (other ∷ queue) lsn =
    let next = if ltb_ℤ lsn other then other else lsn in
    elim (last_lsn_of-IsIn queue next) [
      | inr inside ↦ inr (inr inside)
      | inl e ↦ elim (Bool-cases (ltb_ℤ lsn other)) [
        | inl above ↦ inr (inl (sym (ap (λ b. if b then other else lsn) above) ∙ e))
        | inr below ↦ inl (sym (ap (λ b. if b then other else lsn) below) ∙ e)
      ]
    ]

module _ (r : RecoveryManager) (at_zero : LogEntry) where
  -- A record that `undo` takes off the queue, with the one before it.
  abbrev Follows : LogEntry → (ℤ → Type 0) → Type 0
  Follows (begun header) P = Unit {0}
  Follows (inserted log) P = P log.header.prev_lsn
  Follows (updated log) P = P log.header.prev_lsn
  Follows (deleted log) P = P log.header.prev_lsn
  Follows _ P = ⊥

  -- The records back from lsn are changes, down to a begin or to the number -1 in k steps at most.
  abbrev pub Undoes : ℕ → ℤ → Type 0
  Undoes zero lsn = lsn ≡ negsuc 0
  Undoes (suc k) lsn = Follows (entry_at r at_zero lsn) (Undoes k)

  -- So are those of a queue, in n steps at most in all.
  abbrev pub AllUndo : ℕ → List ℤ → Type 0
  AllUndo n [] = Unit {0}
  AllUndo n (lsn ∷ queue) = (k m : ℕ) × (k + m ≤ n) × Undoes k lsn × AllUndo m queue

  AllUndo-mono : (queue : List ℤ) (n l : ℕ) → AllUndo n queue → n ≤ l → AllUndo l queue
  AllUndo-mono [] n l all within = all
  AllUndo-mono (lsn ∷ queue) n l (k, m, e, undoes, all) within =
      (k, m, omega (arith, e, within), undoes, all)

  -- What is left of the queue without one of its elements.
  AllUndo-remove :
      (queue : List ℤ) (n : ℕ) (top : ℤ)
      → AllUndo n queue
      → IsIn top queue
      → (k m : ℕ) × (k + m ≤ n) × Undoes k top × AllUndo m (remove ℤ_discrete top queue)
  unfolding remove
  AllUndo-remove [] n top all inside = absurd inside
  AllUndo-remove (lsn ∷ queue) n top (k, m, e, undoes, all) inside = elim (ℤ_discrete lsn top) [
    | yes same ↦ (
      k,
      m,
      e,
      subst (Undoes k) same undoes,
      subst (AllUndo m) (sym (if_pos (ℤ_discrete lsn top) same _ _)) all,
    )
    | no other ↦ elim inside [
      | inl same ↦ absurd (other same)
      | inr below ↦
          let (k', m', e', undoes', all') = AllUndo-remove queue m top all below in
          (
            k',
            k + m',
            omega (arith, e, e'),
            undoes',
            subst (AllUndo (k + m')) (sym (if_neg (ℤ_discrete lsn top) other _ _))
                (k, m', omega arith, undoes, all'),
          )
    ]
  ]

  -- One step, at a record that has one before it, takes a step off those of the queue.
  undo_record-AllUndo :
      (entry : LogEntry) (k m : ℕ) (top : ℤ) (rest : List ℤ) (files : List ℕ → RmFile)
      → Follows entry (Undoes k)
      → AllUndo m rest
      → AllUndo (k + m) (undo_record top entry rest files).0
  unfolding undo_record
  undo_record-AllUndo (inserted log) k m top rest files undoes all =
      (k, m, omega arith, undoes, all)
  undo_record-AllUndo (updated log) k m top rest files undoes all = (k, m, omega arith, undoes, all)
  undo_record-AllUndo (deleted log) k m top rest files undoes all = (k, m, omega arith, undoes, all)
  undo_record-AllUndo (begun header) k m top rest files undoes all =
      AllUndo-mono rest m (k + m) all (omega arith)
  undo_record-AllUndo (committed header) k m top rest files undoes all = absurd undoes
  undo_record-AllUndo (aborted header) k m top rest files undoes all = absurd undoes
  undo_record-AllUndo (checkpoint_at header) k m top rest files undoes all = absurd undoes

  undo_step :
      (k m n : ℕ) (top : ℤ) (rest : List ℤ) (files : List ℕ → RmFile)
      → top ≢ negsuc 0
      → k + m ≤ n
      → Undoes k top
      → AllUndo m rest
      → (l : ℕ) × (l < n) × AllUndo l (undo_record top (entry_at r at_zero top) rest files).0
  undo_step zero m n top rest files other e undoes all = absurd (other undoes)
  undo_step (suc k) m n top rest files other e undoes all = (
    k + m,
    omega (arith, e),
    undo_record-AllUndo (entry_at r at_zero top) k m top rest files undoes all,
  )

  undo_loop-some :
      (fuel n : ℕ) (queue : List ℤ) (files : List ℕ → RmFile)
      → AllUndo n queue
      → n < fuel
      → (undone : List ℕ → RmFile) × (undo_loop fuel r at_zero queue files ≡ some undone)
  unfolding undo_loop
  undo_loop-some zero n queue files all enough = absurd (omega (arith, enough))
  undo_loop-some (suc fuel) n [] files all enough = (files, refl)
  undo_loop-some (suc fuel) n (lsn ∷ queue) files all enough =
      let top = last_lsn_of queue lsn in
      let rest = remove ℤ_discrete top (lsn ∷ queue) in
      elim (ℤ_discrete top (negsuc 0)) [
        | yes last ↦ (files, if_pos (ℤ_discrete top (negsuc 0)) last _ _)
        | no other ↦
            let (k, m, e, undoes, all') =
              AllUndo-remove (lsn ∷ queue) n top all (last_lsn_of-IsIn queue lsn) in
            let (l, fewer, left) = undo_step k m n top rest files other e undoes all' in
            let step = undo_record top (entry_at r at_zero top) rest files in
            let (undone, e') =
              undo_loop-some fuel l step.0 step.1 left (omega (arith, enough, fewer)) in
            (undone, if_neg (ℤ_discrete top (negsuc 0)) other _ _ ∙ e')
      ]

  -- The undo of a log ends with a result: where from the last record of each unfinished transaction
  -- the changes lead back to its begin or to no record, in n steps at most in all, a fuel above n is
  -- enough.
  pub undo-some :
      (fuel n : ℕ) (files : List ℕ → RmFile)
      → AllUndo n (map (λ entry. entry.1) r.att)
      → n < fuel
      → (undone : List ℕ → RmFile) × (undo fuel r at_zero files ≡ some undone)
  unfolding undo
  undo-some fuel n files all enough =
      undo_loop-some fuel n (map (λ entry. entry.1) r.att) files all enough
