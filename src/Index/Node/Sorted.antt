-- ===== src/Index/Node/Sorted.antt =====
-- Nodes with their keys in order: the searches of a node, and what a leaf holds.
use Prim.Native.Nat.{Ordering}
use grmdb.Base.{
  ℕ, ◌-◌, ◌≤◌, ◌<◌, ◌≡◌, ap, subst, ◌↔◌, inl, inr, Bool, true, not, some, arith, dec_lt,
  Option-cases,
}
use grmdb.Defs.{Rid}
use grmdb.Index.Search.{IsFirst, IsMonotone, search-IsFirst, search-eq-linear_search, linear_search}
use grmdb.Index.Key.Order.{is_lt, is_gt, IsOrder, Ordering-cases, irreflexive, le_chain}
use grmdb.Index.Node.{IxNode, first_key, lower_bound, upper_bound, leaf_lookup}

module _ {K : Type 0} (cmp : K → K → Ordering) where
  -- The keys of a node are in order, and no two are equal.
  abbrev pub IsSorted : IxNode K → Type 0
  IsSorted node =
      (i j : ℕ)
      → first_key node ≤ i
      → i < j
      → j < node.num_key
      → is_lt (cmp (node.keys i) (node.keys j)) ≡ true

  -- There is a key to compare with.
  abbrev pub HasKeys : IxNode K → Type 0
  HasKeys node = first_key node < node.num_key

  module _ (order : IsOrder cmp) (same_bytes : Discrete K) (node : IxNode K)
      (sorted : IsSorted node) (target : K) where
    lt-IsMonotone : IsMonotone (λ m. is_lt (cmp (node.keys m) target)) (first_key node) node.num_key
    lt-IsMonotone i j p q h right = elim (dec_lt i j) [
      | yes lt ↦ order.chain (node.keys i) (node.keys j) target (sorted i j p lt h) right
      | no ge ↦ let e : i ≡ j = omega arith in rw e right
    ]

    le-IsMonotone :
        IsMonotone (λ m. not (is_gt (cmp (node.keys m) target))) (first_key node) node.num_key
    le-IsMonotone i j p q h right = elim (dec_lt i j) [
      | yes lt ↦
          ground (arith, le_chain order (node.keys i) (node.keys j) target (sorted i j p lt h))
      | no ge ↦ let e : i ≡ j = omega arith in rw e right
    ]

    -- In a sorted node that has keys, `lower_bound` is the position of the first key that is not
    -- below the target, or -1, as the search key by key finds it; `upper_bound` is that of the first
    -- key above the target.
    pub bounds-eq-linear_search :
        HasKeys node
        → (lower_bound cmp same_bytes node target
            ≡ linear_search
                (λ m. is_lt (cmp (node.keys m) target))
                (node.num_key - first_key node)
                (first_key node))
          × (upper_bound cmp same_bytes node target
              ≡ linear_search
                  (λ m. not (is_gt (cmp (node.keys m) target)))
                  (node.num_key - first_key node)
                  (first_key node))
    unfolding lower_bound upper_bound
    bounds-eq-linear_search some_key = (
      search-eq-linear_search (λ m. is_lt (cmp (node.keys m) target)) _ _ lt-IsMonotone some_key,
      search-eq-linear_search (λ m. not (is_gt (cmp (node.keys m) target))) _ _ le-IsMonotone
          some_key,
    )

    pub lower_bound-IsFirst :
        HasKeys node
        → IsFirst
            (λ m. is_lt (cmp (node.keys m) target))
            (first_key node)
            node.num_key
            (lower_bound cmp same_bytes node target)
    unfolding lower_bound
    lower_bound-IsFirst some_key =
        search-IsFirst (λ m. is_lt (cmp (node.keys m) target)) _ _ lt-IsMonotone some_key

  -- The node holds the key, with the rid.
  abbrev pub Holds : IxNode K → K → Rid → Type 0
  Holds node key rid =
      (i : ℕ) × (first_key node ≤ i)
      × (i < node.num_key)
      × (node.keys i ≡ key)
      × (node.rids i ≡ rid)

  module _ (order : IsOrder cmp) (same_bytes : Discrete K) (node : IxNode K)
      (sorted : IsSorted node) (some_key : HasKeys node) (key : K) where
    abbrev go_right : ℕ → Bool
    go_right m = is_lt (cmp (node.keys m) key)

    -- The first key that is not below the key is where the key stands, if it stands anywhere.
    pub key-IsFirst :
        (s i : ℕ)
        → IsFirst (λ m. is_lt (cmp (node.keys m) key)) (first_key node) node.num_key (some s)
        → first_key node ≤ i
        → i < node.num_key
        → node.keys i ≡ key
        → i ≡ s
    key-IsFirst s i (le, lt, before, after) fi li e = elim (dec_lt i s) [
      | yes under ↦ ground (arith, before i fi under, irreflexive order (node.keys i) key e)
      | no over ↦ elim (dec_lt s i) [
        | yes above_s ↦
            let under : is_lt (cmp (node.keys s) key) ≡ true = rw e at (sorted s i le above_s li) in
            ground (arith, after s (omega arith) lt)
        | no same ↦ omega arith
      ]
    ]

    -- What `leaf_lookup` finds is what the leaf holds.
    pub leaf_lookup_iff :
        (rid : Rid) → (leaf_lookup cmp same_bytes node key ≡ some rid) ↔ Holds node key rid
    unfolding leaf_lookup
    leaf_lookup_iff rid =
        let first = lower_bound-IsFirst order same_bytes node sorted key some_key in
        elim (Option-cases (lower_bound cmp same_bytes node key)) [
          | inl e ↦
              let all_below = subst (IsFirst go_right (first_key node) node.num_key) e first in
              (
                rw (e, leaf_lookup) (λ h. absurd (ground arith)),
                λ (i, fi, li, at, rids).
                    ground (arith, all_below i fi li, irreflexive order (node.keys i) key at),
              )
          | inr (s, e) ↦
              let (le, lt, before, after) =
                subst (IsFirst go_right (first_key node) node.num_key) e first in
              elim (Ordering-cases (cmp (node.keys s) key)) [
                | inl below ↦ absurd (ground (arith, after s (omega arith) lt))
                | inr (inl eq) ↦ (
                  rw (e, leaf_lookup, eq) (λ h. (s, le, lt, order.same _ _ eq, ground arith)),
                  λ (i, fi, li, at, rids).
                      let same = key-IsFirst s i (le, lt, before, after) fi li at in
                      rw (e, leaf_lookup, eq) (rw (← same) (ap some rids)),
                )
                | inr (inr gt) ↦ (
                  rw (e, leaf_lookup, gt) (λ h. absurd (ground arith)),
                  λ (i, fi, li, at, rids).
                      let same = key-IsFirst s i (le, lt, before, after) fi li at in
                      let found : node.keys s ≡ key = rw (← same) at in
                      absurd (ground (arith, order.self key, ap (λ k. cmp k key) found)),
                )
              ]
        ]
