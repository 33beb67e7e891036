-- ===== src/Record/Bitmap/Bits.antt =====
-- What set and reset do to the bits of a bitmap, each bit read by is_set.
use grmdb.Base.{
  ℕ, zero, suc, ◌/◌, ◌%◌, ◌<◌, ◌≡◌, refl, true, false, List, [], ◌∷◌, arith, ◌==◌, if◌then◌else◌,
  length, get_or, set as write, get_or-replicate, length-set,
}
use grmdb.Record.Bitmap.{init, set, reset, is_set}
use grmdb.Record.Bitmap.Bytes.{
  test_bit, test_bit-bit_or, bit_or-lt, test_bit-bit_and, bit_and-lt, test_bit-zero,
}

-- Every byte of the bitmap is a byte, and there are `size` of them.
abbrev pub AreBytes : List ℕ → Type 0
AreBytes [] = Unit {0}
AreBytes (b ∷ bm) = (b < 256) × AreBytes bm

pub get_or-lt : (bm : List ℕ) (i : ℕ) → AreBytes bm → get_or bm i 0 < 256
get_or-lt [] i h = omega arith
get_or-lt (b ∷ bm) zero h = h.0
get_or-lt (b ∷ bm) (suc i) h = get_or-lt bm i h.1

pub write-AreBytes : (bm : List ℕ) (i b : ℕ) → b < 256 → AreBytes bm → AreBytes (write bm i b)
write-AreBytes [] i b hb h = tt
write-AreBytes (c ∷ bm) zero b hb h = (hb, h.1)
write-AreBytes (c ∷ bm) (suc i) b hb h = (h.0, write-AreBytes bm i b hb h.1)

-- Two positions are the same bit exactly when they share byte and bit in the byte.
pos-eq : (p q : ℕ) → (p == q) ≡ (if p / 8 == q / 8 then p % 8 == q % 8 else false)
pos-eq p q = ground arith

is_set_lem : (bm : List ℕ) (q : ℕ) → is_set bm q ≡ test_bit (get_or bm (q / 8) 0) (q % 8)
unfolding is_set
is_set_lem bm q = refl

get_or-write :
    (bm : List ℕ) (i j b : ℕ)
    → i < length bm
    → get_or (write bm i b) j 0 ≡ (if i == j then b else get_or bm j 0)
get_or-write [] i j b h = elim h [ ]
get_or-write (c ∷ bm) zero zero b h = refl
get_or-write (c ∷ bm) zero (suc j) b h = ground arith
get_or-write (c ∷ bm) (suc i) zero b h = ground arith
get_or-write (c ∷ bm) (suc i) (suc j) b h = ground (arith, get_or-write bm i j b)

module _ (bm : List ℕ) (p q : ℕ) (bytes : AreBytes bm) (inside : p / 8 < length bm) where
  -- Setting a bit inside the bitmap sets that bit and leaves every other bit as it was.
  pub is_set-set : is_set (set bm p) q ≡ (if p == q then true else is_set bm q)
  unfolding set
  is_set-set =
      rw (is_set_lem, get_or-write bm (p / 8) (q / 8) _ inside, is_set_lem bm q)
        (ground (
          arith,
          pos-eq p q,
          test_bit-bit_or (get_or bm (p / 8) 0) (p % 8) (q % 8) (get_or-lt bm _ bytes) (omega arith)
              (omega arith),
        ))

  -- Clearing a bit inside the bitmap clears that bit and leaves every other bit as it was.
  pub is_set-reset : is_set (reset bm p) q ≡ (if p == q then false else is_set bm q)
  unfolding reset
  is_set-reset =
      rw (is_set_lem, get_or-write bm (p / 8) (q / 8) _ inside, is_set_lem bm q)
        (ground (
          arith,
          pos-eq p q,
          test_bit-bit_and (get_or bm (p / 8) 0) (p % 8) (q % 8) (get_or-lt bm _ bytes)
              (omega arith) (omega arith),
        ))

module _ (bm : List ℕ) (p : ℕ) (bytes : AreBytes bm) where
  pub set-AreBytes : AreBytes (set bm p)
  unfolding set
  set-AreBytes =
      write-AreBytes bm _ _
        (bit_or-lt _ (p % 8) 0 (get_or-lt bm _ bytes) (omega arith) (omega arith)) bytes

  pub reset-AreBytes : AreBytes (reset bm p)
  unfolding reset
  reset-AreBytes =
      write-AreBytes bm _ _
        (bit_and-lt _ (p % 8) 0 (get_or-lt bm _ bytes) (omega arith) (omega arith)) bytes

pub length-set_bit : (bm : List ℕ) (p : ℕ) → length (set bm p) ≡ length bm
unfolding set
length-set_bit bm p = length-set bm _ _

pub length-reset : (bm : List ℕ) (p : ℕ) → length (reset bm p) ≡ length bm
unfolding reset
length-reset bm p = length-set bm _ _

-- A fresh bitmap has no bit set, also past its end.
pub is_set-init : (size q : ℕ) → is_set (init size) q ≡ false
unfolding is_set init
is_set-init size q = rw get_or-replicate (test_bit-zero (q % 8) (omega arith))
