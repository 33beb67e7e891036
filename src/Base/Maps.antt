-- ===== src/Base/Maps.antt =====
-- Association lists for the source's hash maps, over a decidable key, and lists of distinct items.
-- `put` and `erase` keep one entry for a key; the order of the entries stands for no order.
use mathlib.Core.Path.{◌≡◌, refl}
use mathlib.Core.Logic.{ite, if_pos, if_neg}
use mathlib.Core.Bool.{Bool, false, ◌||◌}
use mathlib.Core.List.{List, [], ◌∷◌}
use mathlib.Core.Option.{Option, none, some}
use native.Mathlib.Omega.{arith}
use grmdb.Base.Tests.{holds}

module _ {ℓ κ} {K : Type ℓ} {V : Type κ} (dec : Discrete K) where
  unfoldable pub lookup : K → List (K × V) → Option V
  lookup k [] = none
  lookup k ((j, v) ∷ m) = ite (dec j k) (some v) (lookup k m)

  unfoldable pub erase : K → List (K × V) → List (K × V)
  erase k [] = []
  erase k ((j, v) ∷ m) = ite (dec j k) (erase k m) ((j, v) ∷ erase k m)

  unfoldable pub put : K → V → List (K × V) → List (K × V)
  unfolding erase
  put k v m = (k, v) ∷ erase k m

  pub lookup-erase :
      (k j : K) (m : List (K × V)) → lookup j (erase k m) ≡ ite (dec k j) none (lookup j m)
  unfolding lookup erase
  lookup-erase k j [] = ground arith
  lookup-erase k j ((i, v) ∷ m) = elim (dec i k) [
    | yes p ↦ rw (if_pos _ p) (ground (arith, lookup-erase k j m))
    | no p ↦ rw (if_neg _ p) (ground (arith, lookup-erase k j m))
  ]

  pub lookup-put :
      (k j : K) (v : V) (m : List (K × V))
      → lookup j (put k v m) ≡ ite (dec k j) (some v) (lookup j m)
  unfolding lookup put
  lookup-put k j v m = ground (arith, lookup-erase k j m)

module _ {ℓ} {K : Type ℓ} (dec : Discrete K) where
  unfoldable pub contains : K → List K → Bool
  contains k [] = false
  contains k (j ∷ ks) = holds (dec j k) || contains k ks

  -- The first occurrence goes.
  unfoldable pub remove : K → List K → List K
  remove k [] = []
  remove k (j ∷ ks) = ite (dec j k) ks (j ∷ remove k ks)

  abbrev pub Distinct : List K → Type 0
  Distinct [] = Unit {0}
  Distinct (k ∷ ks) = (contains k ks ≡ false) × Distinct ks

  pub contains-remove :
      (k j : K) (ks : List K)
      → Distinct ks
      → contains j (remove k ks) ≡ ite (dec k j) false (contains j ks)
  unfolding contains remove
  contains-remove k j [] d = ground arith
  contains-remove k j (i ∷ ks) d = elim (dec i k) [
    | yes p ↦ rw (if_pos _ p) (ground (arith, d.0))
    | no p ↦ rw (if_neg _ p) (ground (arith, contains-remove k j ks d.1))
  ]

  pub contains-remove_le :
      (k j : K) (ks : List K) → contains j ks ≡ false → contains j (remove k ks) ≡ false
  unfolding contains remove
  contains-remove_le k j [] h = refl
  contains-remove_le k j (i ∷ ks) h = ground (arith, contains-remove_le k j ks)

  pub remove-Distinct : (k : K) (ks : List K) → Distinct ks → Distinct (remove k ks)
  unfolding remove
  remove-Distinct k [] d = tt
  remove-Distinct k (i ∷ ks) d =
      ground (arith, remove-Distinct k ks d.1, contains-remove_le k i ks d.0)

  pub remove_absent : (k : K) (ks : List K) → contains k ks ≡ false → remove k ks ≡ ks
  unfolding contains remove
  remove_absent k [] h = refl
  remove_absent k (i ∷ ks) h = ground (arith, remove_absent k ks)
