-- ===== src/Record/Bitmap/Scan.antt =====
-- The search for the next set or clear bit.
use grmdb.Base.{
  ℕ, zero, suc, ◌+◌, ◌≤◌, ◌<◌, ◌≡◌, ◌≢◌, refl, ◌⊎◌, inl, inr, Bool, List, arith, eq_bool,
  eq_bool_iff, Bool-cases, ℕ_discrete,
}
use grmdb.Base.Int.{ℤ, negsuc, incr, pos_part}
use grmdb.Record.Bitmap.{is_set, next_bit_loop, next_bit, first_bit}

-- r is the first position of [from, max_n) whose bit is `bit`, or max_n when there is none.
pub record IsNext (bit : Bool) (bm : List ℕ) (max_n from r : ℕ) : Type 0 where
  pub passed : (i : ℕ) → from ≤ i → i < r → is_set bm i ≢ bit
  pub found : ((from ≤ r) × (r < max_n) × (is_set bm r ≡ bit)) ⊎ (r ≡ max_n)

module _ (bit : Bool) (bm : List ℕ) (max_n : ℕ) where
  step_passed :
      (i r : ℕ)
      → is_set bm i ≢ bit
      → ((j : ℕ) → i + 1 ≤ j → j < r → is_set bm j ≢ bit)
      → (j : ℕ) → i ≤ j
      → j < r
      → is_set bm j ≢ bit
  step_passed i r here later j h k = elim (ℕ_discrete i j) [
    | yes e ↦ rw (← e) here
    | no ne ↦ later j (omega arith) k
  ]

  next_bit_loop-IsNext :
      (rounds i : ℕ)
      → i + rounds ≡ max_n
      → IsNext bit bm max_n i (next_bit_loop bit bm max_n rounds i)
  unfolding next_bit_loop
  next_bit_loop-IsNext zero i e = record {
    passed = λ j h k. absurd (omega arith);
    found = inr refl;
  }
  next_bit_loop-IsNext (suc rounds) i e =
      let ih = next_bit_loop-IsNext rounds (i + 1) (omega arith) in
      elim (Bool-cases (eq_bool (is_set bm i) bit)) [
        | inl hit ↦ rw hit (record {
          passed = λ j h k. absurd (omega arith);
          found = inl (omega arith, omega arith, (eq_bool_iff _ _).0 hit);
        })
        | inr miss ↦ rw miss (record {
          passed =
              step_passed i _ (λ h. ground (arith, (eq_bool_iff (is_set bm i) bit).1 h)) ih.passed;
          found = ground (arith, ih.found);
        })
      ]

  -- next_bit finds the first position after curr, up to max_n, with the wanted bit, and max_n if
  -- there is none.
  pub next_bit-IsNext :
      (curr : ℤ)
      → pos_part (incr curr) ≤ max_n
      → IsNext bit bm max_n (pos_part (incr curr)) (next_bit bit bm max_n curr)
  unfolding next_bit
  next_bit-IsNext curr h = next_bit_loop-IsNext _ _ (omega arith)

  -- first_bit finds the first position of all with the wanted bit, and max_n if there is none.
  pub first_bit-IsNext : IsNext bit bm max_n 0 (first_bit bit bm max_n)
  unfolding first_bit
  first_bit-IsNext = next_bit-IsNext (negsuc 0) (omega arith)
