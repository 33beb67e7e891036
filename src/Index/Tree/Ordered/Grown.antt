-- ===== src/Index/Tree/Ordered/Grown.antt =====
-- A tree in order, after a pair has been put into the leaf that the key belongs to.
use Prim.Native.Nat.{Ordering}
use grmdb.Base.{
  ℕ, zero, suc, ◌≤◌, ◌<◌, ◌≡◌, ◌≢◌, refl, sym, subst, ◌∙◌, ◌↔◌, ◌⊎◌, inl, inr, true, false, Option,
  arith, ℕ_discrete,
}
use grmdb.Base.Int.{ℤ}
use grmdb.Defs.{Rid}
use grmdb.Index.Key.Order.{IsOrder}
use grmdb.Index.Node.{IxNode, internal_lookup}
use grmdb.Index.Node.Sorted.{IsSorted, HasKeys, Holds}
use grmdb.Index.Tree.{value_at}
use grmdb.Index.Tree.Ordered.{Above, Below, low, high, IsTree, InTree}
use grmdb.Index.Tree.Ordered.Child.{internal_lookup-lt, internal_lookup-bounds}
use grmdb.Index.Tree.Ordered.Frame.{OnPage, IsProper, frame-InTree, frame-IsTree}

module _ {K : Type 0} (cmp : K → K → Ordering) (order : IsOrder cmp) (same_bytes : Discrete K)
    (key : K) where
  -- The leaf that the descent to the key ends at.
  abbrev pub leaf_of : (ℤ → IxNode K) → ℕ → ℤ → ℤ
  leaf_of store zero p = p
  leaf_of store (suc height) p =
      leaf_of store height (value_at (store p) (internal_lookup cmp same_bytes (store p) key))

  leaf_of-OnPage :
      (store : ℤ → IxNode K) (height : ℕ) (lo hi : Option K) (p : ℤ)
      → IsTree cmp store height lo hi p
      → OnPage store height p (leaf_of store height p)
  leaf_of-OnPage store zero lo hi p tree = refl
  leaf_of-OnPage store (suc height) lo hi p (inner, sorted, some_key, children, within) =
      let i = internal_lookup cmp same_bytes (store p) key in
      let lt = internal_lookup-lt cmp order same_bytes (store p) inner sorted some_key key in
      inr (
        i,
        lt,
        leaf_of-OnPage store height (low lo (store p) i) (high hi (store p) i)
            (value_at (store p) i) (children i lt),
      )

  module _ (value : Rid) (store store' : ℤ → IxNode K) (q : ℤ)
      (agree : (x : ℤ) → x ≢ q → store x ≡ store' x) (sorted' : IsSorted cmp (store' q))
      (is_leaf' : (store' q).is_leaf ≡ (store q).is_leaf)
      (num_key' : (store' q).num_key ≡ suc (store q).num_key)
      (held : (k : K) (r : Rid)
        → Holds cmp (store' q) k r ↔ (((k ≡ key) × (r ≡ value)) ⊎ Holds cmp (store q) k r)) where
    -- The tree is in order, and holds the pair and what it held.
    abbrev pub Grows : ℕ → Option K → Option K → ℤ → Type 0
    Grows height lo hi p =
        IsTree cmp store' height lo hi p
        × ((k : K) (r : Rid)
            → InTree cmp store' height p k r
              ↔ (((k ≡ key) × (r ≡ value)) ⊎ InTree cmp store height p k r))

    leaf-Grows :
        (lo hi : Option K)
        → IsTree cmp store 0 lo hi q
        → Above cmp lo key
        → Below cmp hi key
        → Grows 0 lo hi q
    leaf-Grows lo hi (leaf, sorted, some_key, within) at_least below =
        let leaf' : (store' q).is_leaf ≡ true = is_leaf' ∙ leaf in
        (
          (
            leaf',
            sorted',
            rw leaf' (omega arith),
            λ i lt.
                elim ((held ((store' q).keys i) ((store' q).rids i)).0
                  (i, rw leaf' (omega arith), lt, refl, refl)) [
                    | inl (same, _) ↦ rw same (at_least, below)
                    | inr (j, _, lt_j, at, _) ↦ rw (← at) (within j lt_j)
                  ],
          ),
          held,
        )

    pub insert-Grows :
        (height : ℕ) (lo hi : Option K) (p : ℤ)
        → leaf_of store height p ≡ q
        → IsTree cmp store height lo hi p
        → IsProper store height p
        → Above cmp lo key
        → Below cmp hi key
        → Grows height lo hi p
    insert-Grows zero lo hi p e tree proper at_least below =
        subst (Grows 0 lo hi) (sym e)
          (leaf-Grows lo hi (subst (IsTree cmp store 0 lo hi) e tree) at_least below)
    insert-Grows (suc height) lo hi p e (inner, sorted, some_key, children, within)
          (not_root, apart, proper) at_least below =
        let node = store p in
        let c = internal_lookup cmp same_bytes node key in
        let lt = internal_lookup-lt cmp order same_bytes node inner sorted some_key key in
        let (low_c, high_c) =
          internal_lookup-bounds cmp order same_bytes node inner sorted some_key key lo hi at_least
            below in
        let (tree_c, held_c) =
          insert-Grows height (low lo node c) (high hi node c) (value_at node c) e (children c lt)
            (proper c lt) low_c high_c in
        let on : OnPage store height (value_at node c) q =
          subst (OnPage store height (value_at node c)) e (
            leaf_of-OnPage store height (low lo node c) (high hi node c) (value_at node c)
              (children c lt)) in
        let same : node ≡ store' p =
          agree p
            (λ is_q. not_root c lt (subst (OnPage store height (value_at node c)) (sym is_q) on)) in
        let off : (j : ℕ) → j < node.num_key → j ≢ c → OnPage store height (value_at node j) q → ⊥ =
          λ j lt_j other on_j. other (apart j c q lt_j lt on_j on) in
        let children' : (j : ℕ)
            → j < node.num_key
            → IsTree cmp store' height (low lo node j) (high hi node j) (value_at node j) =
          λ j lt_j. elim (ℕ_discrete j c) [
            | yes at_c ↦
                subst
                  (λ n. IsTree cmp store' height (low lo node n) (high hi node n) (value_at node n))
                  (sym at_c) tree_c
            | no other ↦
                frame-IsTree store store' q agree cmp height (low lo node j) (high hi node j)
                  (value_at node j) (off j lt_j other) (children j lt_j)
          ] in
        subst
          (λ n.
            ((n.is_leaf ≡ false)
              × IsSorted cmp n
              × HasKeys cmp n
              × ((i : ℕ)
                  → i < n.num_key
                  → IsTree cmp store' height (low lo n i) (high hi n i) (value_at n i))
              × ((i : ℕ)
                  → 1 ≤ i
                  → i < n.num_key
                  → Above cmp lo (n.keys i) × Below cmp hi (n.keys i)))
            × ((k : K) (r : Rid)
                → ((i : ℕ) × (i < n.num_key) × InTree cmp store' height (value_at n i) k r)
                  ↔ (((k ≡ key) × (r ≡ value)) ⊎ InTree cmp store (suc height) p k r)))
          same
          (
            (inner, sorted, some_key, children', within),
            λ k r. (
              λ (j, lt_j, h). elim (ℕ_discrete j c) [
                | no other ↦ inr (
                  j,
                  lt_j,
                  (frame-InTree store store' q agree cmp height (value_at node j) k r
                        (off j lt_j other)).1
                      h,
                )
                | yes at_c ↦
                    elim ((held_c k r).0
                      (subst (λ n. InTree cmp store' height (value_at node n) k r) at_c h)) [
                        | inl new ↦ inl new
                        | inr old ↦ inr (c, lt, old)
                      ]
              ],
              λ h. elim h [
                | inl new ↦ (c, lt, (held_c k r).1 (inl new))
                | inr (j, lt_j, old) ↦ elim (ℕ_discrete j c) [
                  | no other ↦ (
                    j,
                    lt_j,
                    (frame-InTree store store' q agree cmp height (value_at node j) k r
                          (off j lt_j other)).0
                        old,
                  )
                  | yes at_c ↦ (
                    c,
                    lt,
                    (held_c k r).1
                        (inr (subst (λ n. InTree cmp store height (value_at node n) k r) at_c old)),
                  )
                ]
              ],
            ),
          )
