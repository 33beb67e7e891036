-- ===== src/Index/Tree/Move.antt =====
-- `redistribute` and `coalesce` of leaves: what the two leaves hold afterwards.
use Prim.Native.Nat.{Ordering}
use grmdb.Base.{
  ℕ, ◌-◌, ◌≤◌, ◌<◌, ◌≡◌, ◌≢◌, refl, sym, ap, subst, ◌∙◌, ◌↔◌, ◌⊎◌, inl, inr, true, false, some,
  arith, ◌==◌, dec_lt, Option-cases,
}
use grmdb.Defs.{Rid}
use grmdb.Index.Key.Order.{is_lt, IsOrder, irreflexive, asymmetric}
use grmdb.Index.Node.{IxNode, first_key, insert, erase_pair}
use grmdb.Index.Node.Sorted.{IsSorted, Holds}
use grmdb.Index.Node.Insert.{CanInsert, HasKey, Inserted, insert-Inserted}
use grmdb.Index.Node.Erase.{erase_pair-IsSorted, erase_pair-Holds}
use grmdb.Index.Tree.Shrink.{redistribute_leaf, set_key}

swap {ℓ κ} : {A : Type ℓ} {B : Type κ} → A ⊎ B → B ⊎ A
swap (inl a) = inr a
swap (inr b) = inl b

module _ {K : Type 0} (cmp : K → K → Ordering) where
  -- The keys that the left node holds are below those that the right node holds.
  abbrev pub Separated : IxNode K → IxNode K → Type 0
  Separated left right =
      (j k : K) (r s : Rid) → Holds cmp left j r → Holds cmp right k s → is_lt (cmp j k) ≡ true

  -- Two nodes hold between them what two others hold, and the key in the parent is between them.
  abbrev pub Balanced : IxNode K → IxNode K → IxNode K → IxNode K → K → Type 0
  Balanced left right left' right' separator =
      IsSorted cmp left'
      × IsSorted cmp right'
      × ((k : K) (r : Rid)
          → (Holds cmp left k r ⊎ Holds cmp right k r)
            ↔ (Holds cmp left' k r ⊎ Holds cmp right' k r))
      × ((k : K) (r : Rid) → Holds cmp left' k r → is_lt (cmp k separator) ≡ true)
      × ((k : K) (r : Rid) → Holds cmp right' k r → is_lt (cmp k separator) ≡ false)

  module _ (order : IsOrder cmp) where
    -- A node holds one rid at a key.
    Holds-unique :
        (node : IxNode K)
        → IsSorted cmp node
        → (k : K) (r s : Rid) → Holds cmp node k r
        → Holds cmp node k s
        → r ≡ s
    Holds-unique node sorted k r s (i, fi, li, at, rid) (j, fj, lj, at', rid') = elim (dec_lt i j) [
      | yes lt ↦ absurd (ground (arith, sorted i j fi lt lj, irreflexive order _ _ (at ∙ sym at')))
      | no ge ↦ elim (dec_lt j i) [
        | yes gt ↦
            absurd (ground (arith, sorted j i fj gt li, irreflexive order _ _ (at' ∙ sym at)))
        | no le ↦ let e : i ≡ j = omega arith in sym rid ∙ ap node.rids e ∙ rid'
      ]
    ]

    Separated-HasKey :
        (left right : IxNode K) (k : K) (r : Rid)
        → Separated left right
        → Holds cmp left k r
        → HasKey cmp right k
        → ⊥
    Separated-HasKey left right k r apart held (i, fi, li, at) =
        ground
          (arith, apart k k r (right.rids i) held (i, fi, li, at, refl), irreflexive order k k refl)

  -- What `insert` gives for a key that is not there.
  module _ (order : IsOrder cmp) (same_bytes : Discrete K) (node : IxNode K)
      (sorted : IsSorted cmp node) (can : CanInsert cmp node) (key : K) (value : Rid) where
    insert-some :
        (HasKey cmp node key → ⊥)
        → (grown : IxNode K) × (insert cmp same_bytes node key value ≡ some grown)
          × IsSorted cmp grown
          × ((k : K) (r : Rid)
              → Holds cmp grown k r ↔ (((k ≡ key) × (r ≡ value)) ⊎ Holds cmp node k r))
    insert-some new_key =
        let outcome = insert-Inserted cmp order same_bytes node sorted key value can in
        elim (Option-cases (insert cmp same_bytes node key value)) [
          | inl fails ↦ absurd (new_key (rw fails at outcome))
          | inr (grown, e) ↦
              let (_, sorted', _, _, held) =
                subst (Inserted cmp order same_bytes node sorted key value) e outcome in
              (grown, e, sorted', held)
        ]

  module _ (order : IsOrder cmp) (same_bytes : Discrete K) (neighbor node parent : IxNode K)
      (leaf : neighbor.is_leaf ≡ true) (sorted : IsSorted cmp neighbor)
      (sorted_node : IsSorted cmp node) (can : CanInsert cmp node) where
    -- A pair at a position of the neighbor goes to the node.
    module _ (at : ℕ) (lt : at < neighbor.num_key) (grown : IxNode K)
        (held : (k : K) (r : Rid)
          → Holds cmp grown k r
            ↔ (((k ≡ neighbor.keys at) × (r ≡ neighbor.rids at)) ⊎ Holds cmp node k r)) where
      first : first_key neighbor ≤ at
      first = rw leaf (omega arith)

      moved-Holds :
          (k : K) (r : Rid)
          → (Holds cmp neighbor k r ⊎ Holds cmp node k r)
            ↔ (Holds cmp (erase_pair neighbor at) k r ⊎ Holds cmp grown k r)
      moved-Holds k r =
          let rest = erase_pair-Holds cmp order neighbor sorted at first lt k r in
          let here : Holds cmp neighbor (neighbor.keys at) (neighbor.rids at) =
            (at, first, lt, refl, refl) in
          (
            λ h. elim h [
              | inr in_node ↦ inr ((held k r).1 (inr in_node))
              | inl in_neighbor ↦ elim (same_bytes k (neighbor.keys at)) [
                | no other ↦ inl (rest.1 (in_neighbor, other))
                | yes same ↦ inr (
                    (held k r).1 (
                      inl (
                        same,
                        Holds-unique order neighbor sorted (neighbor.keys at) r (neighbor.rids at)
                            (subst (λ x. Holds cmp neighbor x r) same in_neighbor) here,
                      )))
              ]
            ],
            λ h. elim h [
              | inl in_rest ↦ inl (rest.0 in_rest).0
              | inr in_grown ↦ elim ((held k r).0 in_grown) [
                | inr in_node ↦ inr in_node
                | inl (same, same_rid) ↦ inl (rw (same, same_rid) here)
              ]
            ],
          )

    -- The neighbor is in front of the node. Its last pair goes to the node: the two leaves stay
    -- sorted and hold what they held, and the key that is written to the parent at the position of
    -- the node is between them.
    pub redistribute_leaf-Balanced :
        (index : ℕ)
        → 0 < index
        → 0 < neighbor.num_key
        → Separated neighbor node
        → (rest grown : IxNode K) × (separator : K) × (redistribute_leaf cmp same_bytes neighbor
              node parent index
            ≡ some (rest, grown, set_key index separator parent))
          × Balanced neighbor node rest grown separator
    unfolding redistribute_leaf
    redistribute_leaf-Balanced index behind some_pair apart =
        let last = neighbor.num_key - 1 in
        let lt : last < neighbor.num_key = omega arith in
        let le : first_key neighbor ≤ last = rw leaf (omega arith) in
        let key = neighbor.keys last in
        let here : Holds cmp neighbor key (neighbor.rids last) = (last, le, lt, refl, refl) in
        let (grown, e, sorted', held) =
          insert-some order same_bytes node sorted_node can key (neighbor.rids last)
            (Separated-HasKey order neighbor node key (neighbor.rids last) apart here) in
        let test : (index == 0) ≡ false = ground arith in
        (
          erase_pair neighbor last,
          grown,
          key,
          rw (redistribute_leaf, test, e, test) refl,
          (
            erase_pair-IsSorted cmp order neighbor sorted last le lt,
            sorted',
            moved-Holds last lt grown held,
            (λ k r in_rest.
                let ((i, fi, li, at, _), other) =
                  (erase_pair-Holds cmp order neighbor sorted last le lt k r).0 in_rest in
                rw (← at) (elim (dec_lt i last) [
                  | yes under ↦ sorted i last fi under lt
                  | no ge ↦
                      let e : i ≡ last = omega arith in absurd (other (sym at ∙ ap neighbor.keys e))
                ])),
            λ k r in_grown. elim ((held k r).0 in_grown) [
              | inl (same, _) ↦ irreflexive order k key same
              | inr in_node ↦
                  asymmetric order key k (apart key k (neighbor.rids last) r here in_node)
            ],
          ),
        )

    -- A pair of the neighbor with another key than the first is above the first.
    above_first :
        (first_one k : K) (r : Rid)
        → Holds cmp neighbor k r
        → k ≢ first_one
        → neighbor.keys 0 ≡ first_one
        → is_lt (cmp first_one k) ≡ true
    above_first first_one k r (i, fi, li, at, _) other is_first = elim (dec_lt 0 i) [
      | yes later ↦ rw (← is_first, ← at) (sorted 0 i (rw leaf (omega arith)) later li)
      | no none_before ↦
          let e : i ≡ 0 = omega arith in absurd (other (sym at ∙ ap neighbor.keys e ∙ is_first))
    ]

    -- The neighbor is behind the node, which is the first child. Its first pair goes to the node:
    -- the two leaves stay sorted and hold what they held, and the key that is written to the parent
    -- is between them.
    pub redistribute_leaf_first-Balanced :
        1 < neighbor.num_key
        → Separated node neighbor
        → (rest grown : IxNode K) × (separator : K) × (redistribute_leaf cmp same_bytes neighbor
              node parent 0
            ≡ some (rest, grown, set_key 1 separator parent))
          × Balanced node neighbor grown rest separator
    unfolding redistribute_leaf erase_pair
    redistribute_leaf_first-Balanced some_pairs apart =
        let lt : 0 < neighbor.num_key = omega arith in
        let le : first_key neighbor ≤ 0 = rw leaf (omega arith) in
        let key = neighbor.keys 0 in
        let here : Holds cmp neighbor key (neighbor.rids 0) = (0, le, lt, refl, refl) in
        let (grown, e, sorted', held) =
          insert-some order same_bytes node sorted_node can key (neighbor.rids 0)
            (λ (i, fi, li, at). ground (
              arith,
              apart key key (node.rids i) (neighbor.rids 0) (i, fi, li, at, refl) here,
              irreflexive order key key refl,
            )) in
        let rest = erase_pair neighbor 0 in
        let rest_num_key : 0 < rest.num_key = omega arith in
        let rest-IsSorted = erase_pair-IsSorted cmp order neighbor sorted 0 le lt in
        let in_neighbor = erase_pair-Holds cmp order neighbor sorted 0 le lt in
        let first_rest : Holds cmp rest (rest.keys 0) (rest.rids 0) =
          (0, le, rest_num_key, refl, refl) in
        let (held_first, other) = (in_neighbor (rest.keys 0) (rest.rids 0)).0 first_rest in
        (
          rest,
          grown,
          rest.keys 0,
          rw (redistribute_leaf, e) refl,
          (
            sorted',
            rest-IsSorted,
            (λ k r.
                let moved = moved-Holds 0 lt grown held k r in
                (λ h. swap (moved.0 (swap h)), λ h. swap (moved.1 (swap h)))),
            (λ k r in_grown. elim ((held k r).0 in_grown) [
              | inr in_node ↦ apart k (rest.keys 0) r (rest.rids 0) in_node held_first
              | inl (same, _) ↦
                  rw same (above_first key (rest.keys 0) (rest.rids 0) held_first other refl)
            ]),
            λ k r (i, fi, li, at, _). elim (dec_lt 0 i) [
              | yes later ↦
                  rw (← at)
                    (asymmetric order (rest.keys 0) (rest.keys i) (rest-IsSorted 0 i le later li))
              | no none_before ↦
                  let e : i ≡ 0 = omega arith in
                  irreflexive order k (rest.keys 0) (sym at ∙ ap rest.keys e)
            ],
          ),
        )
