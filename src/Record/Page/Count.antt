-- ===== src/Record/Page/Count.antt =====
-- How many slots of a bitmap are taken.
use grmdb.Base.{
  ℕ, zero, suc, ◌+◌, ◌/◌, ◌≤◌, ◌<◌, ◌≡◌, ◌≢◌, refl, List, true, false, arith, length, if◌then◌else◌,
  Bool-cases, inl, inr,
}
use grmdb.Record.Bitmap.{init, set, reset, is_set}
use grmdb.Record.Bitmap.Bits.{AreBytes, is_set-set, is_set-reset, is_set-init}

-- The set bits among the first n.
unfoldable pub count : List ℕ → ℕ → ℕ
count bm zero = 0
count bm (suc n) = (if is_set bm n then 1 else 0) + count bm n

pub count_full : (bm : List ℕ) (n : ℕ) → ((i : ℕ) → i < n → is_set bm i ≢ false) → count bm n ≡ n
unfolding count
count_full bm zero all = refl
count_full bm (suc n) all = elim (Bool-cases (is_set bm n)) [
  | inl taken ↦ rw taken (omega (arith, count_full bm n (λ i h. all i (omega arith))))
  | inr free ↦ absurd (all n (omega arith) free)
]

pub count-init : (size n : ℕ) → count (init size) n ≡ 0
unfolding count
count-init size zero = refl
count-init size (suc n) = rw (is_set-init size n) (omega (arith, count-init size n))

module _ (bm : List ℕ) (p : ℕ) (bytes : AreBytes bm) (inside : p / 8 < length bm) where
  count-set_above : (n : ℕ) → n ≤ p → count (set bm p) n ≡ count bm n
  unfolding count
  count-set_above zero h = refl
  count-set_above (suc n) h =
      ground (arith, is_set-set bm p n bytes inside, count-set_above n (omega arith))

  pub count-set : (n : ℕ) → p < n → is_set bm p ≡ false → count (set bm p) n ≡ suc (count bm n)
  unfolding count
  count-set zero h free = elim h [ ]
  count-set (suc n) h free =
      ground (arith, is_set-set bm p n bytes inside, count-set_above n, count-set n)

  count-reset_above : (n : ℕ) → n ≤ p → count (reset bm p) n ≡ count bm n
  unfolding count
  count-reset_above zero h = refl
  count-reset_above (suc n) h =
      ground (arith, is_set-reset bm p n bytes inside, count-reset_above n (omega arith))

  pub count-reset : (n : ℕ) → p < n → is_set bm p ≡ true → suc (count (reset bm p) n) ≡ count bm n
  unfolding count
  count-reset zero h taken = elim h [ ]
  count-reset (suc n) h taken =
      ground (arith, is_set-reset bm p n bytes inside, count-reset_above n, count-reset n)
