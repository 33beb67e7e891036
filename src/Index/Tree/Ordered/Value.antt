-- ===== src/Index/Tree/Ordered/Value.antt =====
-- `get_value` on a tree in order.
use Prim.Native.Nat.{Ordering}
use grmdb.Base.{
  ℕ, suc, ◌+◌, ◌≤◌, ◌<◌, ◌≡◌, ◌≢◌, refl, sym, ap, subst, ◌∙◌, ◌↔◌, inl, inr, Bool, true, false,
  none, some, arith, List, [], ◌∷◌, get_or, dec_lt, Bool-cases, Option-cases, holds,
}
use grmdb.Base.Int.{ℤ}
use grmdb.Defs.{Rid}
use grmdb.Index.Search.{IsFirst}
use grmdb.Index.Key.Order.{IsOrder, irreflexive}
use grmdb.Index.Node.{first_key, lower_bound}
use grmdb.Index.Node.Sorted.{IsSorted, HasKeys, Holds, lower_bound-IsFirst, key-IsFirst}
use grmdb.Index.Tree.{IxIndex, node_at, unpin_node_page}
use grmdb.Index.Tree.Find.{find_leaf_page, matching, value_in_leaf, get_value}
use grmdb.Index.Tree.Ordered.{IsTree, InTree}
use grmdb.Index.Tree.Ordered.Lookup.{nodes, nodes-unpin_node_page, find_leaf_page-IsLeafOf}

module _ {K : Type 0} where
  -- What `get_value` promises, of what is held at the key: no node changes, the rid that is held
  -- comes first in what it finds, and stands there alone when the memory behind the pairs is not
  -- taken for a key, and it says whether one is held.
  abbrev pub Answers : Type 0 → (Rid → Type 0) → IxIndex K → Bool × List Rid × IxIndex K → Type 0
  Answers Fresh Held ix (found, result, after) =
      (nodes after ≡ nodes ix)
      × ((rid : Rid) → Held rid ↔ ((rest : List Rid) × (result ≡ rid ∷ rest)))
      × (Fresh → (rid : Rid) → Held rid → result ≡ rid ∷ [])
      × ((found ≡ true) ↔ ((rid : Rid) × Held rid))

  missing :
      (Fresh : Type 0) (Held : Rid → Type 0) (ix after : IxIndex K)
      → nodes after ≡ nodes ix
      → ((rid : Rid) → Held rid → ⊥)
      → Answers Fresh Held ix (false, [], after)
  missing Fresh Held ix after same not_held = (
    same,
    (λ rid. (λ h. absurd (not_held rid h), λ (rest, e). ground arith)),
    (λ fresh rid h. absurd (not_held rid h)),
    (λ e. ground arith, λ (rid, h). absurd (not_held rid h)),
  )

  hit :
      (Fresh : Type 0) (Held : Rid → Type 0) (ix after : IxIndex K) (rid : Rid) (behind : List Rid)
      → nodes after ≡ nodes ix
      → Held rid
      → ((other : Rid) → Held other → other ≡ rid)
      → (Fresh → behind ≡ [])
      → Answers Fresh Held ix (true, rid ∷ behind, after)
  hit Fresh Held ix after rid behind same held only alone = (
    same,
    (λ other. (
      λ h. (behind, ap (λ x. x ∷ behind) (sym (only other h))),
      λ (rest, e). subst Held (ap (λ xs. get_or xs 0 rid) e) held,
    )),
    (λ fresh other h.
        ap (λ x. x ∷ behind) (sym (only other h)) ∙ ap (λ xs. other ∷ xs) (alone fresh)),
    (λ e. (rid, held), λ h. refl),
  )

module _ {K : Type 0} (cmp : K → K → Ordering) (order : IsOrder cmp) (same_bytes : Discrete K)
    (key : K) (rounds : ℕ) where
  module _ (ix : IxIndex K) (p : ℤ) (leaf : (node_at ix p).is_leaf ≡ true)
      (sorted : IsSorted cmp (node_at ix p)) (some_key : HasKeys cmp (node_at ix p)) where
    -- The key behind the one that is found is another.
    next_key-ne :
        ((node_at ix p).keys (node_at ix p).num_key ≢ key)
        → (s : ℕ) → first_key (node_at ix p) ≤ s
        → s < (node_at ix p).num_key
        → (node_at ix p).keys s ≡ key
        → (node_at ix p).keys (s + 1) ≢ key
    next_key-ne fresh s le lt at next = elim (dec_lt (s + 1) (node_at ix p).num_key) [
      | yes more ↦
          ground
            (arith, sorted s (s + 1) le (omega arith) more, irreflexive order _ _ (at ∙ sym next))
      | no last ↦
          let e : s + 1 ≡ (node_at ix p).num_key = omega arith in
          fresh (subst (λ n. (node_at ix p).keys n ≡ key) e next)
    ]

    pub value_in_leaf-Answers :
        Answers
          ((node_at ix p).keys (node_at ix p).num_key ≢ key)
          (Holds cmp (node_at ix p) key)
          ix
          (value_in_leaf cmp same_bytes key (suc (suc rounds)) ix p)
    unfolding value_in_leaf matching
    value_in_leaf-Answers =
        let node = node_at ix p in
        let first = lower_bound-IsFirst cmp order same_bytes node sorted key some_key in
        elim (Option-cases (lower_bound cmp same_bytes node key)) [
          | inl e ↦
              let below = subst (IsFirst _ (first_key node) node.num_key) e first in
              rw (e, value_in_leaf)
                (missing _ _ ix ix refl (λ rid (i, fi, lt, at, _).
                  ground (arith, below i fi lt, irreflexive order _ _ at)))
          | inr (s, e) ↦
              let at_s = subst (IsFirst _ (first_key node) node.num_key) e first in
              let same = nodes-unpin_node_page ix p false in
              elim (Bool-cases (holds (same_bytes (node.keys s) key))) [
                | inr other ↦
                    let apart : node.keys s ≢ key = ground arith in
                    rw (e, value_in_leaf, other)
                      (missing _ _ ix (unpin_node_page ix p false) same (λ rid (i, fi, lt, at, _).
                        let here =
                          key-IsFirst cmp order same_bytes node sorted some_key key s i at_s fi lt
                            at in
                        apart (subst (λ n. node.keys n ≡ key) here at)))
                | inl found ↦
                    let at : node.keys s ≡ key = ground arith in
                    rw (e, value_in_leaf, found)
                      (hit _ _ ix (unpin_node_page ix p false) (node.rids s)
                        (matching cmp same_bytes key (suc rounds) node (s + 1)) same
                        (s, at_s.0, at_s.1, at, refl)
                        (λ other (i, fi, lt, at_i, rid).
                          let here =
                            key-IsFirst cmp order same_bytes node sorted some_key key s i at_s fi lt
                              at_i in
                          sym rid ∙ ap node.rids here)
                        (λ fresh.
                          let other : holds (same_bytes (node.keys (s + 1)) key) ≡ false =
                            ground (arith, next_key-ne fresh s at_s.0 at_s.1 at) in
                          rw (matching, other) refl))
              ]
        ]

  Answers-iff :
      (Fresh Fresh' : Type 0) (A B : Rid → Type 0) (ix ix' : IxIndex K)
      (result : Bool × List Rid × IxIndex K)
      → (Fresh → Fresh')
      → ((rid : Rid) → A rid ↔ B rid)
      → nodes ix' ≡ nodes ix
      → Answers Fresh' B ix' result
      → Answers Fresh A ix result
  Answers-iff Fresh Fresh' A B ix ix' (found, rids, after) here iff same (kept, list, one, flag) = (
    kept ∙ same,
    (λ rid. (λ a. (list rid).0 ((iff rid).0 a), λ e. (iff rid).1 ((list rid).1 e))),
    (λ fresh rid a. one (here fresh) rid ((iff rid).0 a)),
    (λ e. let (rid, b) = flag.0 e in (rid, (iff rid).1 b), λ (rid, a). flag.1 (rid, (iff rid).0 a)),
  )

  get_value_found :
      (fuel : ℕ) (ix found : IxIndex K) (q : ℤ)
      → find_leaf_page cmp same_bytes key fuel ix ≡ some (q, found)
      → get_value cmp same_bytes key fuel (suc (suc rounds)) ix
        ≡ some (value_in_leaf cmp same_bytes key (suc (suc rounds)) found q)
  unfolding get_value
  get_value_found fuel ix found q e = rw (get_value, e) refl

  -- On a tree in order `get_value` ends with the fuel of the height, and changes no node. It says
  -- whether the tree holds a rid at the key, and the rid that is held comes first in what it finds;
  -- nothing comes behind it on a tree in which no node has the key in the memory behind its last
  -- pair, up to which the loop of `get_value` reads on.
  pub get_value-Answers :
      (height : ℕ) (ix : IxIndex K)
      → IsTree cmp (nodes ix) height none none ix.root_page
      → (result : Bool × List Rid × IxIndex K) × (get_value cmp same_bytes key
            (suc height)
            (suc (suc rounds))
            ix
          ≡ some result)
        × Answers
            ((q : ℤ) → (node_at ix q).keys (node_at ix q).num_key ≢ key)
            (InTree cmp (nodes ix) height ix.root_page key)
            ix
            result
  get_value-Answers height ix tree =
      let (q, found, e, kept, at_leaf) =
        find_leaf_page-IsLeafOf cmp order same_bytes key height ix tree in
      let (leaf, sorted, some_key, held) = at_leaf in
      let node : node_at ix q ≡ node_at found q = ap (λ s. s q) (sym kept) in
      let result = value_in_leaf cmp same_bytes key (suc (suc rounds)) found q in
      (
        result,
        get_value_found _ ix found q e,
        Answers-iff _ _ _ (Holds cmp (node_at found q) key) ix found result
            (λ fresh. subst (λ n. n.keys n.num_key ≢ key) node (fresh q))
            (λ rid.
              subst (λ n. InTree cmp (nodes ix) height ix.root_page key rid ↔ Holds cmp n key rid)
                node (held rid))
            kept
            (value_in_leaf-Answers found q (subst (λ n. n.is_leaf ≡ true) node leaf)
              (subst (IsSorted cmp) node sorted) (subst (HasKeys cmp) node some_key)),
      )
