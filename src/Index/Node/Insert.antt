-- ===== src/Index/Node/Insert.antt =====
-- `insert` of a node: where the pair goes, and what the node holds afterwards.
use Prim.Native.Nat.{Ordering}
use grmdb.Base.{
  ℕ, suc, ◌+◌, ◌-◌, ◌≤◌, ◌<◌, ◌≡◌, ◌≢◌, refl, sym, ap, subst, ◌∙◌, ◌↔◌, ◌⊎◌, inl, inr, true, false,
  Option, none, some, arith, ◌==◌, dec_lt, Bool-cases, Option-cases, holds,
}
use grmdb.Defs.{Rid}
use grmdb.Index.Search.{IsFirst}
use grmdb.Index.Key.Order.{is_lt, IsOrder, irreflexive, above}
use grmdb.Index.Node.{IxNode, first_key, copy, move, put_at, lower_bound, insert, insert_pair_at}
use grmdb.Index.Node.Sorted.{IsSorted, HasKeys, Holds, lower_bound-IsFirst}

-- The cells of an array in which an item has been put at pos, the rest moved up.
module _ {A : Type 0} (a : ℕ → A) (pos num : ℕ) (x : A) where
  abbrev pub opened : ℕ → A
  opened = put_at pos x (move (pos + 1) pos (num - pos) a)

  pub opened_below : (i : ℕ) → i < pos → opened i ≡ a i
  unfolding copy
  opened_below i h = ground arith

  pub opened_here : opened pos ≡ x
  unfolding copy
  opened_here = ground arith

  pub opened_above : (i : ℕ) → pos ≤ i → i < num → opened (i + 1) ≡ a i
  unfolding copy
  opened_above i h g = let e : pos + (i + 1 - (pos + 1)) ≡ i = omega arith in ground (arith, ap a e)

module _ {K : Type 0} (cmp : K → K → Ordering) where
  -- The place of a key: what is in front of it is below it, the rest is above.
  abbrev pub IsPlace : IxNode K → K → ℕ → Type 0
  IsPlace node key pos =
      (first_key node ≤ pos)
      × (pos ≤ node.num_key)
      × ((i : ℕ) → first_key node ≤ i → i < pos → is_lt (cmp (node.keys i) key) ≡ true)
      × ((i : ℕ) → pos ≤ i → i < node.num_key → is_lt (cmp key (node.keys i)) ≡ true)

  -- A node that has keys, or a leaf that has none.
  abbrev pub CanInsert : IxNode K → Type 0
  CanInsert node = HasKeys cmp node ⊎ ((node.is_leaf ≡ true) × (node.num_key ≡ 0))

  abbrev pub HasKey : IxNode K → K → Type 0
  HasKey node key = (i : ℕ) × (first_key node ≤ i) × (i < node.num_key) × (node.keys i ≡ key)

  module _ (order : IsOrder cmp) (same_bytes : Discrete K) (node : IxNode K)
      (sorted : IsSorted cmp node) (key : K) (value : Rid) where
    first-IsPlace :
        (s : ℕ)
        → IsFirst (λ m. is_lt (cmp (node.keys m) key)) (first_key node) node.num_key (some s)
        → node.keys s ≢ key
        → IsPlace node key s
    first-IsPlace s (le, lt, before, after) other =
        let at_s : is_lt (cmp key (node.keys s)) ≡ true =
          above order (node.keys s) key (after s (omega arith) lt) other in
        (
          le,
          omega arith,
          before,
          λ i p q. elim (dec_lt s i) [
            | yes over ↦ order.chain key (node.keys s) (node.keys i) at_s (sorted s i le over q)
            | no same ↦ let e : i ≡ s = omega arith in rw e at_s
          ],
        )

    pub insert-cases :
        CanInsert node
        → ((insert cmp same_bytes node key value ≡ none) × HasKey node key)
          ⊎ ((pos : ℕ) × IsPlace node key pos
              × (insert cmp same_bytes node key value ≡ some (insert_pair_at node pos key value)))
    unfolding insert
    insert-cases (inr (leaf, empty)) = inr (
      0,
      (
        rw leaf (omega arith),
        omega arith,
        λ i p q. absurd (omega arith),
        λ i p q. absurd (omega arith),
      ),
      let test : (node.num_key == 0) ≡ true = ground arith in rw (test, insert, test) refl,
    )
    insert-cases (inl some_key) =
        let nonempty : (node.num_key == 0) ≡ false = ground arith in
        let first = lower_bound-IsFirst cmp order same_bytes node sorted key some_key in
        elim (Option-cases (lower_bound cmp same_bytes node key)) [
          | inl e ↦
              let all_below = subst (IsFirst _ (first_key node) node.num_key) e first in
              inr (
                node.num_key,
                (omega arith, omega arith, all_below, λ i p q. absurd (omega arith)),
                rw (nonempty, e, insert, nonempty) refl,
              )
          | inr (s, e) ↦
              let at = subst (IsFirst _ (first_key node) node.num_key) e first in
              elim (Bool-cases (holds (same_bytes (node.keys s) key))) [
                | inl same ↦
                    inl (rw (nonempty, e, insert, same) refl, (s, at.0, at.1, ground arith))
                | inr other ↦
                    inr (s, first-IsPlace s at (ground arith), rw (nonempty, e, insert, other) refl)
              ]
        ]

    module _ (pos : ℕ) (place : IsPlace node key pos) where
      abbrev grown : IxNode K
      grown = insert_pair_at node pos key value

      keys-below : (i : ℕ) → i < pos → grown.keys i ≡ node.keys i
      unfolding insert_pair_at
      keys-below = opened_below node.keys pos node.num_key key

      keys-above : (i : ℕ) → pos ≤ i → i < node.num_key → grown.keys (i + 1) ≡ node.keys i
      unfolding insert_pair_at
      keys-above = opened_above node.keys pos node.num_key key

      keys-here : grown.keys pos ≡ key
      unfolding insert_pair_at
      keys-here = opened_here node.keys pos node.num_key key

      -- A key of the node that has grown: an old one in front, the new one, or an old one after it.
      key-cases :
          (i : ℕ)
          → i < suc node.num_key
          → ((i < pos) × (grown.keys i ≡ node.keys i))
            ⊎ ((i ≡ pos) × (grown.keys i ≡ key))
            ⊎ ((pos < i) × (grown.keys i ≡ node.keys (i - 1)))
      key-cases i h = elim (dec_lt i pos) [
        | yes under ↦ inl (under, keys-below i under)
        | no ge ↦ elim (dec_lt pos i) [
          | yes over ↦
              let e : i - 1 + 1 ≡ i = omega arith in
              inr (
                inr (
                  over,
                  subst (λ n. grown.keys n ≡ node.keys (i - 1)) e
                      (keys-above (i - 1) (omega arith) (omega arith)),
                ))
          | no le ↦ let e : i ≡ pos = omega arith in inr (inl (e, rw e keys-here))
        ]
      ]

      -- The node that has grown is sorted.
      pub insert_pair_at-IsSorted : IsSorted cmp grown
      unfolding insert_pair_at
      insert_pair_at-IsSorted i j p q h =
          let (le, le_num, before, after) = place in
          elim (key-cases i (omega arith)) [
            | inl (under, e) ↦ rw e (elim (key-cases j h) [
              | inl (under', e') ↦ rw e' (sorted i j p q (omega arith))
              | inr (inl (_, e')) ↦ rw e' (before i p under)
              | inr (inr (over, e')) ↦ rw e' (sorted i (j - 1) p (omega arith) (omega arith))
            ])
            | inr (inl (same, e)) ↦ rw e (elim (key-cases j h) [
              | inl (under', e') ↦ absurd (omega arith)
              | inr (inl (same', e')) ↦ absurd (omega arith)
              | inr (inr (over, e')) ↦ rw e' (after (j - 1) (omega arith) (omega arith))
            ])
            | inr (inr (over, e)) ↦ rw e (elim (key-cases j h) [
              | inl (under', e') ↦ absurd (omega arith)
              | inr (inl (same', e')) ↦ absurd (omega arith)
              | inr (inr (over', e')) ↦
                  rw e' (sorted (i - 1) (j - 1) (omega arith) (omega arith) (omega arith))
            ])
          ]

      rids-here : grown.rids pos ≡ value
      unfolding insert_pair_at
      rids-here = opened_here node.rids pos node.num_key value

      rids-above : (i : ℕ) → pos < i → i < suc node.num_key → grown.rids i ≡ node.rids (i - 1)
      unfolding insert_pair_at
      rids-above i over h =
          let e : i - 1 + 1 ≡ i = omega arith in
          subst (λ n. grown.rids n ≡ node.rids (i - 1)) e
            (opened_above node.rids pos node.num_key value (i - 1) (omega arith) (omega arith))

      old-Holds : (j : K) (r : Rid) → Holds cmp node j r → Holds cmp grown j r
      unfolding insert_pair_at
      old-Holds j r (i, p, q, at, rid) = elim (dec_lt i pos) [
        | yes under ↦ (
          i,
          p,
          omega arith,
          rw (keys-below i under) at,
          rw (opened_below node.rids pos node.num_key value i under) rid,
        )
        | no ge ↦ (
          i + 1,
          omega arith,
          omega arith,
          rw (keys-above i (omega arith) q) at,
          rw (opened_above node.rids pos node.num_key value i (omega arith) q) rid,
        )
      ]

      -- The node that has grown holds the new pair, and what it held.
      pub insert_pair_at-Holds :
          (j : K) (r : Rid) → Holds cmp grown j r ↔ (((j ≡ key) × (r ≡ value)) ⊎ Holds cmp node j r)
      unfolding insert_pair_at
      insert_pair_at-Holds j r = (
        λ (i, p, q, at, rid). elim (key-cases i q) [
          | inl (under, e) ↦ inr (
            i,
            p,
            omega arith,
            rw e at at,
            rw (opened_below node.rids pos node.num_key value i under) at rid,
          )
          | inr (inl (same, e)) ↦
              let rid_pos : grown.rids pos ≡ r = subst (λ n. grown.rids n ≡ r) same rid in
              inl (sym at ∙ e, sym rid_pos ∙ rids-here)
          | inr (inr (over, e)) ↦ inr (
            i - 1,
            omega arith,
            omega arith,
            sym e ∙ at,
            sym (rids-above i over (omega arith)) ∙ rid,
          )
        ],
        λ h. elim h [
          | inl (e, r_is) ↦ rw (e, r_is) (pos, place.0, omega arith, keys-here, rids-here)
          | inr old ↦ old-Holds j r old
        ],
      )

      place-HasKey : HasKey node key → ⊥
      place-HasKey (i, p, q, at) =
          let (le, le_num, before, after) = place in
          elim (dec_lt i pos) [
            | yes under ↦ ground (arith, before i p under, irreflexive order (node.keys i) key at)
            | no ge ↦
                ground
                  (arith, after i (omega arith) q, irreflexive order key (node.keys i) (sym at))
          ]

    -- What `insert` promises: an error and a node with the key, or the pair and a node without it.
    abbrev pub Inserted : Option (IxNode K) → Type 0
    Inserted none = HasKey node key
    Inserted (some node') =
        (HasKey node key → ⊥)
        × IsSorted cmp node'
        × (node'.is_leaf ≡ node.is_leaf)
        × (node'.num_key ≡ suc node.num_key)
        × ((j : K) (r : Rid)
            → Holds cmp node' j r ↔ (((j ≡ key) × (r ≡ value)) ⊎ Holds cmp node j r))

    -- Into a sorted node that has keys, or a leaf that has none, `insert` puts the pair once: it
    -- throws where the key is there, and otherwise the node stays sorted, has one pair more, and
    -- holds that pair and what it held.
    pub insert-Inserted : CanInsert node → Inserted (insert cmp same_bytes node key value)
    unfolding insert_pair_at
    insert-Inserted can = elim (insert-cases can) [
      | inl (fails, has) ↦ rw fails has
      | inr (pos, place, succeeds) ↦ rw succeeds (
        place-HasKey pos place,
        insert_pair_at-IsSorted pos place,
        refl,
        refl,
        insert_pair_at-Holds pos place,
      )
    ]
