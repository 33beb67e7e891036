-- ===== src/Index/Tree/Ordered/Entry.antt =====
-- `insert_entry` on a tree in order, where the leaf is not full.
use Prim.Native.Nat.{Ordering}
use grmdb.Base.{
  ℕ, zero, suc, ◌<◌, ◌≡◌, ◌≢◌, refl, sym, ap, subst, ◌∙◌, ◌↔◌, ◌⊎◌, inl, inr, Bool, true, false,
  Option, none, some, arith, leb, ite, if_neg, Option-cases,
}
use grmdb.Base.Int.{ℤ, ℤ_discrete}
use grmdb.Defs.{Rid}
use grmdb.Index.Key.Order.{IsOrder}
use grmdb.Index.Node.{IxNode, internal_lookup, insert}
use grmdb.Index.Node.Sorted.{IsSorted, Holds}
use grmdb.Index.Node.Insert.{Inserted, insert-Inserted}
use grmdb.Index.Tree.{
  IxIndex, IxPage, ix_no_page, update_page, node_at, set_node, value_at, fetch_node,
  unpin_node_page,
}
use grmdb.Index.Tree.Find.{descend, find_leaf_page}
use grmdb.Index.Tree.Grow.{insert_in_leaf, insert_entry}
use grmdb.Index.Tree.Ordered.{IsTree, InTree, low, high}
use grmdb.Index.Tree.Ordered.Child.{internal_lookup-lt}
use grmdb.Index.Tree.Ordered.Frame.{IsProper}
use grmdb.Index.Tree.Ordered.Grown.{leaf_of, insert-Grows}
use grmdb.Index.Tree.Ordered.Lookup.{
  nodes, nodes-fetch_node, nodes-unpin_node_page, find_leaf_page-IsLeafOf,
}

module _ {K : Type 0} where
  node-ite_yes : {P : Type 0} (d : Dec P) (a b : IxPage K) → P → (ite d a b).node ≡ a.node
  node-ite_yes (yes p) a b h = refl
  node-ite_yes (no n) a b h = absurd (n h)

  node-ite_no : {P : Type 0} (d : Dec P) (a b : IxPage K) → (P → ⊥) → b.node ≡ (ite d a b).node
  node-ite_no (yes p) a b h = absurd (h p)
  node-ite_no (no n) a b h = refl

  module _ (ix : IxIndex K) (q : ℤ) (n : IxNode K) where
    set_node_here : nodes (set_node ix q n) q ≡ n
    unfolding update_page
    set_node_here =
        node-ite_yes (ℤ_discrete q q) (record (ix.pages q) { node = n }) (ix.pages q) refl

    set_node_other : (x : ℤ) → x ≢ q → nodes ix x ≡ nodes (set_node ix q n) x
    unfolding update_page
    set_node_other x other =
        node-ite_no (ℤ_discrete q x) (record (ix.pages q) { node = n }) (ix.pages x)
          (λ e. other (sym e))

    set_node_root : (set_node ix q n).root_page ≡ ix.root_page
    unfolding update_page
    set_node_root = refl

  -- The fields of the file header that a descent reads or keeps.
  abbrev SameHeader : IxIndex K → IxIndex K → Type 0
  SameHeader ix found = (found.btree_order ≡ ix.btree_order) × (found.root_page ≡ ix.root_page)

  fetch_node-SameHeader : (ix : IxIndex K) (p : ℤ) → SameHeader ix (fetch_node ix p)
  unfolding fetch_node update_page
  fetch_node-SameHeader ix p = (refl, refl)

  unpin_node_page-SameHeader :
      (ix : IxIndex K) (p : ℤ) (is_dirty : Bool) → SameHeader ix (unpin_node_page ix p is_dirty)
  unfolding unpin_node_page update_page
  unpin_node_page-SameHeader ix p is_dirty = (refl, refl)

  same_result :
      (p q : ℤ) (ix found : IxIndex K)
      → ◌≡◌ {A = Option (ℤ × IxIndex K)} (some (p, ix)) (some (q, found))
      → (q ≡ p) × (found ≡ ix)
  same_result p q ix found e = (
    sym (ap (λ o. elim o [ none ↦ p | some (a, _) ↦ a ]) e),
    sym (ap (λ o. elim o [ none ↦ ix | some (_, b) ↦ b ]) e),
  )

module _ {K : Type 0} (cmp : K → K → Ordering) (order : IsOrder cmp) (same_bytes : Discrete K)
    (key : K) where
  descend-leaf_of :
      (height : ℕ) (lo hi : Option K) (ix : IxIndex K) (p q : ℤ) (found : IxIndex K)
      → IsTree cmp (nodes ix) height lo hi p
      → descend cmp same_bytes key (suc height) ix p ≡ some (q, found)
      → (q ≡ leaf_of cmp order same_bytes key (nodes ix) height p) × SameHeader ix found
  unfolding descend
  descend-leaf_of zero lo hi ix p q found (leaf, sorted, some_key, within) e =
      let (q_is, found_is) = same_result p q ix found (rw leaf at e) in
      (q_is, (ap (λ x. x.btree_order) found_is, ap (λ x. x.root_page) found_is))
  descend-leaf_of (suc height) lo hi ix p q found (inner, sorted, some_key, children, within) e =
      let node = node_at ix p in
      let i = internal_lookup cmp same_bytes node key in
      let child = value_at node i in
      let lt = internal_lookup-lt cmp order same_bytes node inner sorted some_key key in
      let unpinned = unpin_node_page ix p false in
      let below = fetch_node unpinned child in
      let same : nodes below ≡ nodes ix =
        nodes-fetch_node _ child ∙ nodes-unpin_node_page ix p false in
      let (q_is, (order_is, root_is)) =
        descend-leaf_of height (low lo node i) (high hi node i) below child q found
          (subst (λ s. IsTree cmp s height (low lo node i) (high hi node i) child) (sym same)
            (children i lt))
          (rw inner at e) in
      let (order_f, root_f) = fetch_node-SameHeader unpinned child in
      let (order_u, root_u) = unpin_node_page-SameHeader ix p false in
      (
        subst (λ s. q ≡ leaf_of cmp order same_bytes key s height child) same q_is,
        (order_is ∙ order_f ∙ order_u, root_is ∙ root_f ∙ root_u),
      )

  find_leaf_page-leaf_of :
      (height : ℕ) (ix : IxIndex K) (q : ℤ) (found : IxIndex K)
      → IsTree cmp (nodes ix) height none none ix.root_page
      → find_leaf_page cmp same_bytes key (suc height) ix ≡ some (q, found)
      → (q ≡ leaf_of cmp order same_bytes key (nodes ix) height ix.root_page) × SameHeader ix found
  unfolding find_leaf_page
  find_leaf_page-leaf_of height ix q found tree e =
      let root = fetch_node ix ix.root_page in
      let same = nodes-fetch_node ix ix.root_page in
      let (q_is, (order_is, root_is)) =
        descend-leaf_of height none none root ix.root_page q found
          (subst (λ s. IsTree cmp s height none none ix.root_page) (sym same) tree) e in
      let (order_f, root_f) = fetch_node-SameHeader ix ix.root_page in
      (
        subst (λ s. q ≡ leaf_of cmp order same_bytes key s height ix.root_page) same q_is,
        (order_is ∙ order_f, root_is ∙ root_f),
      )

  module _ (zero_key : K) (value : Rid) where
    -- A leaf with room takes the pair, or has the key.
    leaf_fails :
        (fuel : ℕ) (ix : IxIndex K) (q : ℤ)
        → insert cmp same_bytes (node_at ix q) key value ≡ none
        → insert_in_leaf cmp same_bytes zero_key fuel ix q key value ≡ some none
    unfolding insert_in_leaf
    leaf_fails fuel ix q e = rw (insert_in_leaf, e) refl

    leaf_takes :
        (fuel : ℕ) (ix : IxIndex K) (q : ℤ) (node : IxNode K)
        → insert cmp same_bytes (node_at ix q) key value ≡ some node
        → leb ix.btree_order (node_at ix q).num_key ≡ false
        → insert_in_leaf cmp same_bytes zero_key fuel ix q key value
          ≡ some (some (q, set_node ix q node))
    unfolding insert_in_leaf
    leaf_takes fuel ix q node e room = rw (insert_in_leaf, e, room) refl

    entry_in_leaf :
        (fuel : ℕ) (ix found : IxIndex K) (q : ℤ)
        → ix.root_page ≢ ix_no_page
        → find_leaf_page cmp same_bytes key fuel ix ≡ some (q, found)
        → insert_entry cmp same_bytes zero_key fuel ix key value
          ≡ insert_in_leaf cmp same_bytes zero_key fuel found q key value
    unfolding insert_entry
    entry_in_leaf fuel ix found q some_root e =
        rw (insert_entry, if_neg (ℤ_discrete ix.root_page ix_no_page) some_root, e) refl

    -- What `insert_entry` promises: an error and a tree with the key, or a tree in order that holds
    -- the pair and what the tree held, which was not at the key.
    abbrev pub Entered : ℕ → IxIndex K → Option (ℤ × IxIndex K) → Type 0
    Entered height ix none = (rid : Rid) × InTree cmp (nodes ix) height ix.root_page key rid
    Entered height ix (some (q, after)) =
        ((rid : Rid) → InTree cmp (nodes ix) height ix.root_page key rid → ⊥)
        × (after.root_page ≡ ix.root_page)
        × IsTree cmp (nodes after) height none none ix.root_page
        × ((k : K) (r : Rid)
            → InTree cmp (nodes after) height ix.root_page k r
              ↔ (((k ≡ key) × (r ≡ value)) ⊎ InTree cmp (nodes ix) height ix.root_page k r))

    -- Into a tree in order that has no page twice and no full leaf, `insert_entry` puts the pair
    -- once, with the fuel of the height: it throws where the tree has the key, and otherwise the
    -- tree stays in order and holds that pair and what it held.
    pub insert_entry-Entered :
        (height : ℕ) (ix : IxIndex K)
        → ix.root_page ≢ ix_no_page
        → IsTree cmp (nodes ix) height none none ix.root_page
        → IsProper (nodes ix) height ix.root_page
        → ((q : ℤ) → (node_at ix q).is_leaf ≡ true → (node_at ix q).num_key < ix.btree_order)
        → (result : Option (ℤ × IxIndex K)) × (insert_entry cmp same_bytes zero_key
              (suc height)
              ix
              key
              value
            ≡ some result)
          × Entered height ix result
    insert_entry-Entered height ix some_root tree proper room =
        let (q, found, e, kept, at_leaf) =
          find_leaf_page-IsLeafOf cmp order same_bytes key height ix tree in
        let (leaf, sorted, some_key, held) = at_leaf in
        let (q_is, (order_is, root_is)) = find_leaf_page-leaf_of height ix q found tree e in
        let node : node_at found q ≡ node_at ix q = ap (λ s. s q) kept in
        let start = entry_in_leaf (suc height) ix found q some_root e in
        let outcome =
          insert-Inserted cmp order same_bytes (node_at ix q) sorted key value (inl some_key) in
        elim (Option-cases (insert cmp same_bytes (node_at ix q) key value)) [
          | inl fails ↦
              let (i, fi, li, at) =
                subst (Inserted cmp order same_bytes (node_at ix q) sorted key value) fails
                  outcome in
              (
                none,
                start ∙ leaf_fails (suc height) found q (rw node fails),
                ((node_at ix q).rids i, (held ((node_at ix q).rids i)).1 (i, fi, li, at, refl)),
              )
          | inr (grown, takes) ↦
              let (new_key, sorted', is_leaf', num_key', held') =
                subst (Inserted cmp order same_bytes (node_at ix q) sorted key value) takes
                  outcome in
              let after = set_node found q grown in
              let here : grown ≡ nodes after q = sym (set_node_here found q grown) in
              let grows =
                insert-Grows cmp order same_bytes key value (nodes ix) (nodes after) q
                  (λ x other. ap (λ s. s x) (sym kept) ∙ set_node_other found q grown x other)
                  (subst (IsSorted cmp) here sorted')
                  (subst (λ n. n.is_leaf ≡ (node_at ix q).is_leaf) here is_leaf')
                  (subst (λ n. n.num_key ≡ suc (node_at ix q).num_key) here num_key')
                  (subst
                    (λ n.
                      (k : K) (r : Rid)
                      → Holds cmp n k r
                        ↔ (((k ≡ key) × (r ≡ value)) ⊎ Holds cmp (node_at ix q) k r))
                    here held')
                  height none none ix.root_page (sym q_is) tree proper tt tt in
              (
                some (q, after),
                start
                    ∙ leaf_takes (suc height) found q grown (rw node takes)
                        (rw (order_is, node) (ground (arith, room q leaf))),
                (
                  (λ rid h. let (i, fi, li, at, _) = (held rid).0 h in new_key (i, fi, li, at)),
                  set_node_root found q grown ∙ root_is,
                  grows.0,
                  grows.1,
                ),
              )
        ]
