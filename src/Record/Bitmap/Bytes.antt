-- ===== src/Record/Bitmap/Bytes.antt =====
-- Setting, clearing and testing a bit of a byte, by a check of every byte.
use Prim.Native.Nat.{bit_and, bit_or}
use grmdb.Base.{
  ℕ, ◌-◌, ◌/◌, ◌^◌, ◌<◌, ◌≡◌, refl, Bool, true, false, not, ◌&&◌, arith, ◌==◌, ltb, eq_bool,
  eq_bool_iff, ltb→lt, if◌then◌else◌, passes_below, passes_below-lt,
}

-- Bit 7 - k of the byte x.
abbrev pub test_bit : ℕ → ℕ → Bool
test_bit x k = not (bit_and x (128 / 2 ^ k) == 0)

abbrev set_ok : ℕ → ℕ → ℕ → Bool
set_ok x k j =
    eq_bool (test_bit (bit_or x (128 / 2 ^ k)) j) (if k == j then true else test_bit x j)
    && ltb (bit_or x (128 / 2 ^ k)) 256

abbrev reset_ok : ℕ → ℕ → ℕ → Bool
reset_ok x k j =
    eq_bool (test_bit (bit_and x (255 - 128 / 2 ^ k)) j) (if k == j then false else test_bit x j)
    && ltb (bit_and x (255 - 128 / 2 ^ k)) 256

abbrev every : (ℕ → ℕ → ℕ → Bool) → Bool
every ok = passes_below (λ x. passes_below (λ k. passes_below (ok x k) 8) 8) 256

every_sound :
    (ok : ℕ → ℕ → ℕ → Bool) (x k j : ℕ)
    → every ok ≡ true
    → x < 256
    → k < 8
    → j < 8
    → ok x k j ≡ true
every_sound ok x k j h hx hk hj =
    let bytes =
      passes_below-lt (λ x'. passes_below (λ k'. passes_below (ok x' k') 8) 8) 256 h x hx in
    passes_below-lt (ok x k) 8 (passes_below-lt (λ k'. passes_below (ok x k') 8) 8 bytes k hk) j hj

set_table : every set_ok ≡ true
unfolding passes_below
set_table = refl

reset_table : every reset_ok ≡ true
unfolding passes_below
reset_table = refl

and-left : (a b : Bool) → (a && b) ≡ true → a ≡ true
and-left a b h = ground arith

and-right : (a b : Bool) → (a && b) ≡ true → b ≡ true
and-right a b h = ground arith

zero_table : passes_below (λ k. not (test_bit 0 k)) 8 ≡ true
unfolding passes_below
zero_table = refl

pub test_bit-zero : (k : ℕ) → k < 8 → test_bit 0 k ≡ false
test_bit-zero k h = ground (arith, passes_below-lt (λ k'. not (test_bit 0 k')) 8 zero_table k h)

module _ (x k j : ℕ) (hx : x < 256) (hk : k < 8) (hj : j < 8) where
  pub test_bit-bit_or :
      test_bit (bit_or x (128 / 2 ^ k)) j ≡ (if k == j then true else test_bit x j)
  test_bit-bit_or = (eq_bool_iff _ _).0 (and-left _ _ (every_sound set_ok x k j set_table hx hk hj))

  pub bit_or-lt : bit_or x (128 / 2 ^ k) < 256
  bit_or-lt = ltb→lt _ _ (and-right _ _ (every_sound set_ok x k j set_table hx hk hj))

  pub test_bit-bit_and :
      test_bit (bit_and x (255 - 128 / 2 ^ k)) j ≡ (if k == j then false else test_bit x j)
  test_bit-bit_and =
      (eq_bool_iff _ _).0 (and-left _ _ (every_sound reset_ok x k j reset_table hx hk hj))

  pub bit_and-lt : bit_and x (255 - 128 / 2 ^ k) < 256
  bit_and-lt = ltb→lt _ _ (and-right _ _ (every_sound reset_ok x k j reset_table hx hk hj))
