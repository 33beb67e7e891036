-- ===== src/Execution/Executor.antt =====
-- AbstractExecutor of src/execution/executor_abstract.h, and `select_from` of execution_manager.cpp,
-- which prints what an executor yields. Each operation may throw.
use grmdb.Base.{
  ◌+◌, ap, ℕ, zero, suc, ◌<◌, ◌≡◌, refl, subst, List, [], ◌∷◌, Bool, true, false, Option, none,
  some, ◌>>=◌, length, arith,
}

-- `Next` gives the current record, and may change the executor.
pub record Executor : Type 1 where
  pub State : Type 0
  pub begin_tuple : State → Option State
  pub next_tuple : State → Option State
  pub is_end : State → Bool
  pub next : State → Option (List ℕ × State)

module _ (e : Executor) where
  open e use {State, begin_tuple, next_tuple, is_end, next}

  -- From a state on, the executor yields these records and then is at its end. Where Next is called
  -- once for each of them.
  abbrev pub Yields : State → List (List ℕ) → Type 0
  Yields s [] = is_end s ≡ true
  Yields s (tuple ∷ tuples) =
      (is_end s ≡ false)
      × (taken : State) × (next s ≡ some (tuple, taken))
      × (rest : State) × (next_tuple taken ≡ some rest)
      × Yields rest tuples

  -- So it does from its beginning on.
  abbrev pub Starts : State → List (List ℕ) → Type 0
  Starts s tuples = (begun : State) × (begin_tuple s ≡ some begun) × Yields begun tuples

  -- The loop of `select_from` from its test on, with the flag `output_off_` and `num_rec`: the
  -- records printed, and both after it. What is made of the columns of a record for the output is
  -- left out.
  unfoldable pub print_records : ℕ → Bool → ℕ → State → Option (List (List ℕ) × ℕ × Bool)
  print_records zero output_off num_rec s = none
  print_records (suc fuel) output_off num_rec s =
      let printed = next s >>= (λ taken. elim output_off [
        | true ↦ some ([], num_rec, false)
        | false ↦ next_tuple taken.1 >>= (λ rest.
            print_records fuel false (suc num_rec) rest
            >>= (λ below. some (taken.0 ∷ below.0, below.1, below.2)))
      ]) in
      elim (is_end s) [ true ↦ some ([], num_rec, output_off) | false ↦ printed ]

  -- The records printed, their number, and the flag.
  unfoldable pub select_from : ℕ → Bool → State → Option (List (List ℕ) × ℕ × Bool)
  unfolding print_records
  select_from fuel output_off s = begin_tuple s >>= (λ begun. print_records fuel output_off 0 begun)

  print_records-Yields :
      (fuel num_rec : ℕ) (s : State) (tuples : List (List ℕ))
      → Yields s tuples
      → length tuples < fuel
      → print_records fuel false num_rec s ≡ some (tuples, num_rec + length tuples, false)
  unfolding print_records
  print_records-Yields zero num_rec s tuples yields enough = absurd (omega (arith, enough))
  print_records-Yields (suc fuel) num_rec s [] yields enough =
      let e : num_rec ≡ num_rec + 0 = omega arith in
      rw (print_records, yields) (ap (λ n. some ([], n, false)) e)
  print_records-Yields (suc fuel) num_rec s (tuple ∷ tuples) (more, taken, e', rest, e'', yields)
        enough =
      let e : suc num_rec + length tuples ≡ num_rec + suc (length tuples) = omega arith in
      let below =
        print_records-Yields fuel (suc num_rec) rest tuples yields (omega (arith, enough)) in
      rw (print_records, more, e', e'', below) (ap (λ n. some (tuple ∷ tuples, n, false)) e)

  print_records-off :
      (fuel num_rec : ℕ) (s : State) (tuple : List ℕ) (tuples : List (List ℕ))
      → Yields s (tuple ∷ tuples)
      → print_records (suc fuel) true num_rec s ≡ some ([], num_rec, false)
  unfolding print_records
  print_records-off fuel num_rec s tuple tuples (more, taken, e', rest, e'', yields) =
      rw (print_records, more, e') refl

  print_records_at_end :
      (fuel num_rec : ℕ) (s : State)
      → is_end s ≡ true
      → print_records (suc fuel) true num_rec s ≡ some ([], num_rec, true)
  unfolding print_records
  print_records_at_end fuel num_rec s ended = rw (print_records, ended) refl

  -- With the flag off, `select_from` prints all that the executor yields, in this order, and counts
  -- it; with the flag on it prints nothing, and turns the flag off unless there is nothing to print.
  -- A fuel above the number of records is enough.
  pub select_from-Starts :
      (fuel : ℕ) (s : State) (tuples : List (List ℕ))
      → Starts s tuples
      → length tuples < fuel
      → (select_from fuel false s ≡ some (tuples, length tuples, false))
        × ((tuple : List ℕ) (rest : List (List ℕ))
            → tuples ≡ tuple ∷ rest
            → select_from fuel true s ≡ some ([], 0, false))
        × (tuples ≡ [] → select_from fuel true s ≡ some ([], 0, true))
  unfolding select_from
  select_from-Starts zero s tuples (begun, e', yields) enough = absurd (omega (arith, enough))
  select_from-Starts (suc fuel) s tuples (begun, e', yields) enough = (
    (let e : 0 + length tuples ≡ length tuples = omega arith in
        rw (e', print_records-Yields (suc fuel) 0 begun tuples yields enough)
          (ap (λ n. some (tuples, n, false)) e)),
    (λ tuple rest e''.
        rw (e', print_records-off fuel 0 begun tuple rest (subst (Yields begun) e'' yields)) refl),
    λ e''. rw (e', print_records_at_end fuel 0 begun (subst (Yields begun) e'' yields)) refl,
  )
