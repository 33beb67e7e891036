-- ===== src/Index/Tree/Split.antt =====
-- `split` of a leaf: what the two halves hold.
use Prim.Native.Nat.{Ordering}
use grmdb.Base.{
  ℕ, ◌+◌, ◌-◌, ◌*◌, ◌/◌, ◌≤◌, ◌<◌, ◌≡◌, sym, ap, ◌∙◌, ◌↔◌, ◌⊎◌, inl, inr, true, arith, dec_lt,
}
use grmdb.Base.Int.{pos}
use grmdb.Defs.{Rid}
use grmdb.Index.Key.Order.{is_lt}
use grmdb.Index.Node.{IxNode, copy}
use grmdb.Index.Node.Sorted.{IsSorted, Holds}
use grmdb.Index.Tree.{child_rid}
use grmdb.Index.Tree.Grow.{fill, left_half, right_half}

-- What the two arrays have of one that is cut.
module _ {A : Type 0} (x : A) (a b : ℕ → A) (cut n i : ℕ) where
  fill_below : i < cut → fill cut x n a i ≡ a i
  fill_below h = ground arith

  copy_from : i < n → copy 0 a cut n b i ≡ a (cut + i)
  unfolding copy
  copy_from h = ground arith

module _ {K : Type 0} (zero_key : K) (cmp : K → K → Ordering) (node fresh : IxNode K) where
  abbrev left : IxNode K
  left = left_half zero_key node

  abbrev right : IxNode K
  right = right_half zero_key node fresh

  abbrev half : ℕ
  half = node.num_key / 2

  left_keys : (i : ℕ) → i < half → left.keys i ≡ node.keys i
  unfolding left_half
  left_keys i = fill_below zero_key node.keys fresh.keys half (node.num_key - half) i

  left_rids : (i : ℕ) → i < half → left.rids i ≡ node.rids i
  unfolding left_half
  left_rids i = fill_below (child_rid (pos 0)) node.rids fresh.rids half (node.num_key - half) i

  right_keys : (i : ℕ) → i < node.num_key - half → right.keys i ≡ node.keys (half + i)
  unfolding right_half
  right_keys i = copy_from zero_key node.keys fresh.keys half (node.num_key - half) i

  right_rids : (i : ℕ) → i < node.num_key - half → right.rids i ≡ node.rids (half + i)
  unfolding right_half
  right_rids i = copy_from (child_rid (pos 0)) node.rids fresh.rids half (node.num_key - half) i

  -- What a split of a leaf promises.
  abbrev pub Splits : IxNode K → IxNode K → Type 0
  Splits left right =
      IsSorted cmp left
      × IsSorted cmp right
      × (left.num_key + right.num_key ≡ node.num_key)
      × ((key : K) (rid : Rid)
          → Holds cmp node key rid ↔ (Holds cmp left key rid ⊎ Holds cmp right key rid))
      × ((i : ℕ) → i < left.num_key → is_lt (cmp (left.keys i) (right.keys 0)) ≡ true)
      × (2 * left.num_key ≤ node.num_key)
      × (node.num_key ≤ 2 * left.num_key + 1)

  module _ (leaf : node.is_leaf ≡ true) (sorted : IsSorted cmp node) where
    left-IsSorted : IsSorted cmp left
    unfolding left_half
    left-IsSorted i j p q h =
        rw (left_keys i (omega arith), left_keys j h) (sorted i j p q (omega arith))

    right-IsSorted : IsSorted cmp right
    unfolding right_half
    right-IsSorted i j p q h =
        rw (right_keys i (omega arith), right_keys j h)
          (sorted (half + i) (half + j) (rw leaf (omega arith)) (omega arith) (omega arith))

    halves-Holds :
        (key : K) (rid : Rid)
        → Holds cmp node key rid ↔ (Holds cmp left key rid ⊎ Holds cmp right key rid)
    unfolding left_half right_half
    halves-Holds key rid = (
      λ (i, p, q, at, r). elim (dec_lt i half) [
        | yes under ↦ inl (i, p, under, left_keys i under ∙ at, left_rids i under ∙ r)
        | no ge ↦
            let lt : i - half < node.num_key - half = omega arith in
            let e : half + (i - half) ≡ i = omega arith in
            inr (
              i - half,
              rw leaf (omega arith),
              lt,
              right_keys (i - half) lt ∙ ap node.keys e ∙ at,
              right_rids (i - half) lt ∙ ap node.rids e ∙ r,
            )
      ],
      λ h. elim h [
        | inl (i, p, q, at, r) ↦
            (i, p, omega arith, sym (left_keys i q) ∙ at, sym (left_rids i q) ∙ r)
        | inr (i, p, q, at, r) ↦ (
          half + i,
          rw leaf (omega arith),
          omega arith,
          sym (right_keys i q) ∙ at,
          sym (right_rids i q) ∙ r,
        )
      ],
    )

    -- A sorted leaf that has a pair is split into two sorted nodes, of sizes that differ by one at
    -- most, which hold between them what it held; the keys of the left one are below the first key
    -- of the right one, which goes to the parent.
    pub split-Splits : 0 < node.num_key → Splits left right
    unfolding left_half right_half
    split-Splits some_key = (
      left-IsSorted,
      right-IsSorted,
      omega arith,
      halves-Holds,
      λ i h.
          rw (left_keys i h, right_keys 0 (omega arith))
            (sorted i (half + 0) (rw leaf (omega arith)) (omega arith) (omega arith)),
      omega arith,
      omega arith,
    )
