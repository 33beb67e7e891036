-- ===== src/Index/Key.antt =====
-- `ix_compare` of src/index/ix_index_handle.h on keys in bytes, and the order that the nodes rely
-- on. The comparison of two `float`s is a parameter.
pub mod Order
use Prim.Native.Nat.{Ordering, compare}
use grmdb.Base.{
  ℕ, zero, suc, List, [], ◌∷◌, Option, none, some, Bool, true, false, if◌then◌else◌, ltb, drop, ◌≡◌,
}
use grmdb.Base.Int.{ℤ, ltb_ℤ}
use grmdb.Recovery.Bytes.{read_int}

-- src/defs.h
pub data ColType : Type 0 where
  type_int : ColType
  type_float : ColType
  type_string : ColType
  type_datetime : ColType

-- The sign of the `int` that a comparison returns.
abbrev pub compare_int : ℤ → ℤ → Ordering
compare_int a b = if ltb_ℤ a b then Ordering.lt else if ltb_ℤ b a then Ordering.gt else Ordering.eq

-- `memcmp` of n bytes.
unfoldable pub memcmp : ℕ → List ℕ → List ℕ → Ordering
memcmp zero a b = Ordering.eq
memcmp (suc n) [] b = Ordering.eq
memcmp (suc n) (x ∷ a) [] = Ordering.eq
memcmp (suc n) (x ∷ a) (y ∷ b) =
    let rest = memcmp n a b in elim (compare x y) [ Ordering.eq ↦ rest | other ↦ other ]

module _ (compare_float : List ℕ → List ℕ → Ordering) where
  -- `none` is the InternalError of a type that has no case.
  unfoldable pub ix_compare_col : List ℕ → List ℕ → ColType → ℕ → Option Ordering
  unfolding memcmp
  ix_compare_col a b type_int col_len = some (compare_int (read_int a).0 (read_int b).0)
  ix_compare_col a b type_float col_len = some (compare_float a b)
  ix_compare_col a b type_string col_len = some (memcmp col_len a b)
  ix_compare_col a b type_datetime col_len = none

  -- The columns of a key one after another, each with its type and its length.
  unfoldable pub ix_compare : List ℕ → List ℕ → List (ColType × ℕ) → Option Ordering
  unfolding ix_compare_col
  ix_compare a b [] = some Ordering.eq
  ix_compare a b ((col_type, col_len) ∷ cols) =
      let rest = ix_compare (drop col_len a) (drop col_len b) cols in
      elim (ix_compare_col a b col_type col_len) [
        | none ↦ none
        | some Ordering.eq ↦ rest
        | some other ↦ some other
      ]
