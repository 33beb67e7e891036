-- ===== src/Index/Tree/Ordered/Lookup.antt =====
-- The leaf that `find_leaf_page` finds, and what `get_value` makes of it.
use Prim.Native.Nat.{Ordering}
use grmdb.Base.{
  ℕ, zero, suc, ◌+◌, ◌-◌, ◌≡◌, refl, sym, ap, subst, ◌∙◌, fun_ext, ◌↔◌, inl, inr, Bool, true, false,
  Option, none, some, arith, ltb, leb, ite, Bool-cases, if◌then◌else◌, ◌||◌,
}
use grmdb.Base.Int.{ℤ, ℤ_discrete}
use grmdb.Defs.{Rid}
use grmdb.Index.Key.Order.{is_lt, IsOrder, Ordering-cases}
use grmdb.Index.Node.{IxNode, internal_lookup}
use grmdb.Index.Node.Sorted.{IsSorted, HasKeys, Holds}
use grmdb.Index.Tree.{IxIndex, IxPage, update_page, node_at, value_at, fetch_node, unpin_node_page}
use grmdb.Index.Tree.Find.{descend, find_leaf_page}
use grmdb.Index.Tree.Ordered.{Above, Below, low, high, IsTree, InTree}
use grmdb.Index.Tree.Ordered.Child.{internal_lookup-lt, chosen_only}

module _ {K : Type 0} where
  abbrev pub nodes : IxIndex K → ℤ → IxNode K
  nodes ix p = node_at ix p

  node-ite :
      {P : Type 0} (d : Dec P) (a b : IxPage K) → (P → a.node ≡ b.node) → (ite d a b).node ≡ b.node
  node-ite (yes p) a b same = same p
  node-ite (no n) a b same = refl

  nodes-update_page :
      (ix : IxIndex K) (p : ℤ) (f : IxPage K → IxPage K)
      → ((page : IxPage K) → (f page).node ≡ page.node)
      → nodes (update_page ix p f) ≡ nodes ix
  unfolding update_page
  nodes-update_page ix p f keeps = fun_ext (λ q.
      node-ite (ℤ_discrete p q) (f (ix.pages p)) (ix.pages q)
        (λ e. keeps (ix.pages p) ∙ ap (nodes ix) e))

  pub nodes-fetch_node : (ix : IxIndex K) (p : ℤ) → nodes (fetch_node ix p) ≡ nodes ix
  unfolding fetch_node
  nodes-fetch_node ix p =
      nodes-update_page ix p (λ page. record page { pin_count = suc page.pin_count }) (λ page. refl)

  pub nodes-unpin_node_page :
      (ix : IxIndex K) (p : ℤ) (is_dirty : Bool) → nodes (unpin_node_page ix p is_dirty) ≡ nodes ix
  unfolding unpin_node_page
  nodes-unpin_node_page ix p is_dirty =
      nodes-update_page ix p
        (λ page. record page {
          pin_count = page.pin_count - 1;
          is_dirty = if ltb 0 page.pin_count then page.is_dirty || is_dirty else page.is_dirty;
        })
        (λ page. refl)

module _ {K : Type 0} (cmp : K → K → Ordering) (order : IsOrder cmp) where
  Above-at_least :
      (lo : Option K) (a b : K) → Above cmp lo a → is_lt (cmp b a) ≡ false → Above cmp lo b
  Above-at_least none a b lo_a le = tt
  Above-at_least (some l) a b lo_a le = elim (Bool-cases (is_lt (cmp b l))) [
    | inr fine ↦ fine
    | inl under ↦ elim (Bool-cases (is_lt (cmp a b))) [
      | inl lt ↦ ground (arith, order.chain a b l lt under)
      | inr ge ↦ absurd (elim (Ordering-cases (cmp a b)) [
        | inl lt ↦ ground arith
        | inr (inl eq) ↦ let a_l = rw (order.same a b eq) at lo_a in ground arith
        | inr (inr gt) ↦ ground (arith, order.flip a b)
      ])
    ]
  ]

  Below-under : (hi : Option K) (a b : K) → Below cmp hi a → is_lt (cmp b a) ≡ true → Below cmp hi b
  Below-under none a b hi_a lt = tt
  Below-under (some h) a b hi_a lt = order.chain b a h lt hi_a

  -- What a tree holds is within its bounds.
  pub InTree-bounds :
      (store : ℤ → IxNode K) (height : ℕ) (lo hi : Option K) (p : ℤ) (key : K) (rid : Rid)
      → IsTree cmp store height lo hi p
      → InTree cmp store height p key rid
      → Above cmp lo key × Below cmp hi key
  InTree-bounds store zero lo hi p key rid (leaf, sorted, some_key, within) (i, first, lt, at, _) =
      rw (← at) (within i lt)
  InTree-bounds store (suc height) lo hi p key rid (inner, sorted, some_key, children, within)
        (i, lt, held) =
      let (lower, upper) =
        InTree-bounds store height (low lo (store p) i) (high hi (store p) i) (value_at (store p) i)
          key rid (children i lt) held in
      (
        (elim (Bool-cases (leb i 0)) [
          | inl first ↦ rw first at lower
          | inr later ↦
              Above-at_least lo ((store p).keys i) key (within i (ground arith) lt).0
                (rw later at lower)
        ]),
        (elim (Bool-cases (ltb (i + 1) (store p).num_key)) [
          | inr last ↦ rw last at upper
          | inl more ↦
              Below-under hi ((store p).keys (i + 1)) key
                (within (i + 1) (omega arith) (ground arith)).1 (rw more at upper)
        ]),
      )

  module _ (same_bytes : Discrete K) (key : K) where
    -- The leaf of a tree that the key is in, if it is in the tree.
    abbrev pub IsLeafOf : (ℤ → IxNode K) → ℕ → ℤ → ℤ → Type 0
    IsLeafOf store height p q =
        ((store q).is_leaf ≡ true)
        × IsSorted cmp (store q)
        × HasKeys cmp (store q)
        × ((rid : Rid) → InTree cmp store height p key rid ↔ Holds cmp (store q) key rid)

    descend-IsLeafOf :
        (height : ℕ) (lo hi : Option K) (ix : IxIndex K) (p : ℤ)
        → IsTree cmp (nodes ix) height lo hi p
        → (q : ℤ) × (found : IxIndex K) × (descend cmp same_bytes key (suc height) ix p
            ≡ some (q, found))
          × (nodes found ≡ nodes ix)
          × IsLeafOf (nodes ix) height p q
    unfolding descend
    descend-IsLeafOf zero lo hi ix p (leaf, sorted, some_key, within) =
        (p, ix, rw leaf refl, refl, (leaf, sorted, some_key, λ rid. (λ h. h, λ h. h)))
    descend-IsLeafOf (suc height) lo hi ix p (inner, sorted, some_key, children, within) =
        let node = node_at ix p in
        let i = internal_lookup cmp same_bytes node key in
        let child = value_at node i in
        let lt = internal_lookup-lt cmp order same_bytes node inner sorted some_key key in
        let below = fetch_node (unpin_node_page ix p false) child in
        let same : nodes below ≡ nodes ix =
          nodes-fetch_node _ child ∙ nodes-unpin_node_page ix p false in
        let (q, found, e, same', at_child) =
          descend-IsLeafOf height (low lo node i) (high hi node i) below child (
            subst (λ s. IsTree cmp s height (low lo node i) (high hi node i) child) (sym same)
              (children i lt)) in
        let (leaf, sorted', some_key', held) =
          subst (λ s. IsLeafOf s height child q) same at_child in
        (
          q,
          found,
          rw inner e,
          same' ∙ same,
          (
            leaf,
            sorted',
            some_key',
            λ rid. (
              λ (j, in_node, below_j).
                  let (lower, upper) =
                    InTree-bounds (nodes ix) height (low lo node j) (high hi node j)
                      (value_at node j) key rid (children j in_node) below_j in
                  let only =
                    chosen_only cmp order same_bytes node inner sorted some_key key lo hi j in_node
                      lower upper in
                  (held rid).0 (
                    subst (λ n. InTree cmp (nodes ix) height (value_at node n) key rid) only
                      below_j),
              λ h. (i, lt, (held rid).1 h),
            ),
          ),
        )

    -- On a tree in order, with the fuel of its height, `find_leaf_page` comes to a leaf, the one
    -- that holds what the tree holds at the key; it changes no node.
    pub find_leaf_page-IsLeafOf :
        (height : ℕ) (ix : IxIndex K)
        → IsTree cmp (nodes ix) height none none ix.root_page
        → (q : ℤ) × (found : IxIndex K) × (find_leaf_page cmp same_bytes key (suc height) ix
            ≡ some (q, found))
          × (nodes found ≡ nodes ix)
          × IsLeafOf (nodes ix) height ix.root_page q
    unfolding find_leaf_page
    find_leaf_page-IsLeafOf height ix tree =
        let root = fetch_node ix ix.root_page in
        let same = nodes-fetch_node ix ix.root_page in
        let (q, found, e, same', at_root) =
          descend-IsLeafOf height none none root ix.root_page
            (subst (λ s. IsTree cmp s height none none ix.root_page) (sym same) tree) in
        (q, found, e, same' ∙ same, subst (λ s. IsLeafOf s height ix.root_page q) same at_root)
