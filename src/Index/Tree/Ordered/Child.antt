-- ===== src/Index/Tree/Ordered/Child.antt =====
-- The child that `internal_lookup` chooses is the one that the key is in.
use Prim.Native.Nat.{Ordering}
use grmdb.Base.{
  ℕ, ◌+◌, ◌-◌, ◌≤◌, ◌<◌, ◌≡◌, ◌≢◌, refl, sym, subst, inl, inr, true, false, Option, some, arith,
  ltb, leb, dec_lt, Bool-cases, Option-cases, if◌then◌else◌, holds,
}
use grmdb.Index.Search.{IsFirst}
use grmdb.Index.Key.Order.{is_lt, IsOrder, irreflexive, above, asymmetric}
use grmdb.Index.Node.{IxNode, first_key, lower_bound, internal_lookup}
use grmdb.Index.Node.Sorted.{IsSorted, HasKeys, lower_bound-IsFirst}
use grmdb.Index.Tree.Ordered.{Above, Below, low, high}

module _ {K : Type 0} (cmp : K → K → Ordering) (order : IsOrder cmp) where
  module _ (same_bytes : Discrete K) (node : IxNode K) (inner : node.is_leaf ≡ false)
      (sorted : IsSorted cmp node) (some_key : HasKeys cmp node) (key : K) where
    -- The keys up to position i are not above the key, and the others are.
    abbrev Chosen : ℕ → Type 0
    Chosen i =
        (i < node.num_key)
        × ((j : ℕ) → 1 ≤ j → j ≤ i → is_lt (cmp key (node.keys j)) ≡ false)
        × ((j : ℕ) → i < j → j < node.num_key → is_lt (cmp key (node.keys j)) ≡ true)

    first_is : first_key node ≡ 1
    first_is = rw inner refl

    no_bound-Chosen :
        ((i : ℕ) → first_key node ≤ i → i < node.num_key → is_lt (cmp (node.keys i) key) ≡ true)
        → Chosen (node.num_key - 1)
    no_bound-Chosen below = (
      omega arith,
      λ j p q. asymmetric order (node.keys j) key (below j (rw first_is p) (omega arith)),
      λ j p q. absurd (omega arith),
    )

    module _ (s : ℕ)
        (first : IsFirst
          (λ m. is_lt (cmp (node.keys m) key))
          (first_key node)
          node.num_key
          (some s)) where
      here-Chosen : node.keys s ≡ key → Chosen s
      here-Chosen e =
          let (le, lt, before, after) = first in
          (
            lt,
            λ j p q. elim (dec_lt j s) [
              | yes under ↦ asymmetric order (node.keys j) key (before j (rw first_is p) under)
              | no ge ↦
                  let at : s ≡ j = omega arith in
                  subst (λ n. is_lt (cmp key (node.keys n)) ≡ false) at
                    (irreflexive order key (node.keys s) (sym e))
            ],
            λ j p q. rw e at (sorted s j le p q),
          )

      before-Chosen : node.keys s ≢ key → Chosen (s - 1)
      before-Chosen other =
          let (le, lt, before, after) = first in
          let le_s : 1 ≤ s = rw first_is at le in
          let at_s = above order (node.keys s) key (after s (omega arith) lt) other in
          (
            omega arith,
            λ j p q. asymmetric order (node.keys j) key (before j (rw first_is p) (omega arith)),
            λ j p q. elim (dec_lt s j) [
              | yes over ↦ order.chain key (node.keys s) (node.keys j) at_s (sorted s j le over q)
              | no ge ↦
                  let at : s ≡ j = omega arith in
                  subst (λ n. is_lt (cmp key (node.keys n)) ≡ true) at at_s
            ],
          )

      bound-Chosen : Chosen (if holds (same_bytes (node.keys s) key) then s else s - 1)
      bound-Chosen = elim (Bool-cases (holds (same_bytes (node.keys s) key))) [
        | inl same ↦ rw same (here-Chosen (ground arith))
        | inr other ↦ rw other (before-Chosen (ground arith))
      ]

    internal_lookup-Chosen : Chosen (internal_lookup cmp same_bytes node key)
    unfolding internal_lookup
    internal_lookup-Chosen =
        let first = lower_bound-IsFirst cmp order same_bytes node sorted key some_key in
        elim (Option-cases (lower_bound cmp same_bytes node key)) [
          | inl e ↦
              rw (e, internal_lookup)
                (no_bound-Chosen (subst (IsFirst _ (first_key node) node.num_key) e first))
          | inr (s, e) ↦
              rw (e, internal_lookup)
                (bound-Chosen s (subst (IsFirst _ (first_key node) node.num_key) e first))
        ]

    pub internal_lookup-lt : internal_lookup cmp same_bytes node key < node.num_key
    internal_lookup-lt = internal_lookup-Chosen.0

    -- The chosen child is the one whose tree holds the key.
    pub chosen_only :
        (lo hi : Option K) (i : ℕ)
        → i < node.num_key
        → Above cmp (low lo node i) key
        → Below cmp (high hi node i) key
        → i ≡ internal_lookup cmp same_bytes node key
    chosen_only lo hi i lt at_least at_most =
        let c = internal_lookup cmp same_bytes node key in
        let (c_lt, up_to, past) = internal_lookup-Chosen in
        elim (dec_lt i c) [
          | yes under ↦
              let test : ltb (i + 1) node.num_key ≡ true = ground arith in
              let at : is_lt (cmp key (node.keys (i + 1))) ≡ true = rw test at at_most in
              ground (arith, up_to (i + 1) (omega arith) (omega arith))
          | no ge ↦ elim (dec_lt c i) [
            | yes over ↦
                let test : leb i 0 ≡ false = ground arith in
                let at : is_lt (cmp key (node.keys i)) ≡ false = rw test at at_least in
                ground (arith, past i over lt)
            | no le ↦ omega arith
          ]
        ]

    -- The key is within the bounds of the chosen child.
    pub internal_lookup-bounds :
        (lo hi : Option K)
        → Above cmp lo key
        → Below cmp hi key
        → Above cmp (low lo node (internal_lookup cmp same_bytes node key)) key
          × Below cmp (high hi node (internal_lookup cmp same_bytes node key)) key
    internal_lookup-bounds lo hi at_least below =
        let c = internal_lookup cmp same_bytes node key in
        let (c_lt, up_to, past) = internal_lookup-Chosen in
        (
          elim (Bool-cases (leb c 0)) [
            | inl first ↦ rw first at_least
            | inr later ↦ rw later (up_to c (ground arith) (omega arith))
          ],
          elim (Bool-cases (ltb (c + 1) node.num_key)) [
            | inl more ↦ rw more (past (c + 1) (omega arith) (ground arith))
            | inr last ↦ rw last below
          ],
        )
