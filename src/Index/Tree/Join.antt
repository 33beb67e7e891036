-- ===== src/Index/Tree/Join.antt =====
-- `insert_pairs`, and with it what `coalesce` makes of two leaves.
use Prim.Native.Nat.{Ordering}
use grmdb.Base.{
  ℕ, ◌+◌, ◌-◌, ◌≤◌, ◌<◌, ◌≡◌, refl, sym, ap, subst, ◌∙◌, ◌↔◌, ◌⊎◌, inl, inr, true, arith, dec_lt,
}
use grmdb.Defs.{Rid}
use grmdb.Index.Node.{IxNode, copy, move, insert_pairs}
use grmdb.Index.Node.Sorted.{IsSorted, Holds}
use grmdb.Index.Tree.Move.{Separated}

-- An array into which n items of another are put at pos, as `insert_pairs` does it.
module _ {A : Type 0} (a b : ℕ → A) (pos num n : ℕ) where
  abbrev pub spliced : ℕ → A
  spliced = copy pos b 0 n (move (pos + pos) pos (num - pos) a)

  pub spliced_below : (i : ℕ) → i < pos → spliced i ≡ a i
  unfolding copy
  spliced_below i h = ground arith

  pub spliced_in : (i : ℕ) → i < n → spliced (pos + i) ≡ b i
  unfolding copy
  spliced_in i h = let e : pos + i - pos ≡ i = omega arith in ground (arith, ap b e)

  pub spliced_above : (i : ℕ) → (n ≡ pos) ⊎ (num ≤ pos) → pos ≤ i → i < num → spliced (i + n) ≡ a i
  unfolding copy
  spliced_above i (inr at_end) h g = absurd (omega arith)
  spliced_above i (inl same) h g =
      let e : pos + (i + n - (pos + pos)) ≡ i = omega arith in ground (arith, ap a e)

module _ {K : Type 0} (node : IxNode K) (pos n : ℕ) (key : ℕ → K) (rid : ℕ → Rid) where
  abbrev joined : IxNode K
  joined = insert_pairs node pos key rid n

  -- At the end of a node, or where the number of pairs is the position, `insert_pairs` does what its
  -- comment draws: the pairs in front of the position stay, the new ones follow, and then those that
  -- stood there.
  pub insert_pairs_lem :
      pos ≤ node.num_key
      → (n ≡ pos) ⊎ (node.num_key ≤ pos)
      → (joined.num_key ≡ node.num_key + n)
        × ((i : ℕ) → i < pos → (joined.keys i ≡ node.keys i) × (joined.rids i ≡ node.rids i))
        × ((i : ℕ) → i < n → (joined.keys (pos + i) ≡ key i) × (joined.rids (pos + i) ≡ rid i))
        × ((i : ℕ)
            → pos ≤ i
            → i < node.num_key
            → (joined.keys (i + n) ≡ node.keys i) × (joined.rids (i + n) ≡ node.rids i))
  unfolding insert_pairs
  insert_pairs_lem in_node fits = (
    refl,
    (λ i h. (
      spliced_below node.keys key pos node.num_key n i h,
      spliced_below node.rids rid pos node.num_key n i h,
    )),
    (λ i h. (
      spliced_in node.keys key pos node.num_key n i h,
      spliced_in node.rids rid pos node.num_key n i h,
    )),
    λ i p q. (
      spliced_above node.keys key pos node.num_key n i fits p q,
      spliced_above node.rids rid pos node.num_key n i fits p q,
    ),
  )

module _ {K : Type 0} (cmp : K → K → Ordering) (left right : IxNode K)
    (sorted_left : IsSorted cmp left) (sorted_right : IsSorted cmp right)
    (leaf : right.is_leaf ≡ true) (apart : Separated cmp left right) where
  abbrev both : IxNode K
  both = insert_pairs left left.num_key right.keys right.rids right.num_key

  -- A pair of the joined node stood in the left one, or in the right one.
  pair-cases :
      (i : ℕ)
      → i < left.num_key + right.num_key
      → ((i < left.num_key) × (both.keys i ≡ left.keys i) × (both.rids i ≡ left.rids i))
        ⊎ ((j : ℕ) × (j < right.num_key)
            × (i ≡ left.num_key + j)
            × (both.keys i ≡ right.keys j)
            × (both.rids i ≡ right.rids j))
  pair-cases i h =
      let (_, below, above, _) =
        insert_pairs_lem left left.num_key right.num_key right.keys right.rids (omega arith)
          (inr (omega arith)) in
      elim (dec_lt i left.num_key) [
        | yes under ↦ let (k, r) = below i under in inl (under, k, r)
        | no ge ↦
            let e : left.num_key + (i - left.num_key) ≡ i = omega arith in
            let lt : i - left.num_key < right.num_key = omega arith in
            let (k, r) = above (i - left.num_key) lt in
            inr (
              i - left.num_key,
              lt,
              sym e,
              subst (λ n. both.keys n ≡ right.keys (i - left.num_key)) e k,
              subst (λ n. both.rids n ≡ right.rids (i - left.num_key)) e r,
            )
      ]

  in_right : (j : ℕ) → j < right.num_key → Holds cmp right (right.keys j) (right.rids j)
  in_right j h = (j, rw leaf (omega arith), h, refl, refl)

  joined-IsSorted : IsSorted cmp both
  unfolding insert_pairs
  joined-IsSorted i j p q h = elim (pair-cases i (omega arith)) [
    | inl (under, k, _) ↦ elim (pair-cases j h) [
      | inl (under', k', _) ↦ rw (k, k') (sorted_left i j p q under')
      | inr (j', lt', e', k', _) ↦
          rw (k, k')
            (apart (left.keys i) (right.keys j') (left.rids i) (right.rids j')
              (i, p, under, refl, refl) (in_right j' lt'))
    ]
    | inr (i', lt, e, k, _) ↦ elim (pair-cases j h) [
      | inl (under', k', _) ↦ absurd (omega arith)
      | inr (j', lt', e', k', _) ↦
          rw (k, k') (sorted_right i' j' (rw leaf (omega arith)) (omega arith) lt')
    ]
  ]

  joined-Holds :
      (key : K) (rid : Rid)
      → left.is_leaf ≡ true
      → Holds cmp both key rid ↔ (Holds cmp left key rid ⊎ Holds cmp right key rid)
  unfolding insert_pairs
  joined-Holds key rid left_leaf =
      let (_, below, above, _) =
        insert_pairs_lem left left.num_key right.num_key right.keys right.rids (omega arith)
          (inr (omega arith)) in
      (
        λ (i, p, q, at, r). elim (pair-cases i q) [
          | inl (under, k, r') ↦ inl (i, p, under, sym k ∙ at, sym r' ∙ r)
          | inr (j, lt, e, k, r') ↦ inr (j, rw leaf (omega arith), lt, sym k ∙ at, sym r' ∙ r)
        ],
        λ h. elim h [
          | inl (i, p, q, at, r) ↦ (i, p, omega arith, (below i q).0 ∙ at, (below i q).1 ∙ r)
          | inr (j, p, q, at, r) ↦ (
            left.num_key + j,
            rw left_leaf (omega arith),
            omega arith,
            (above j q).0 ∙ at,
            (above j q).1 ∙ r,
          )
        ],
      )

  -- Two sorted leaves, the keys of the left one below those of the right one, are joined into a
  -- sorted leaf that holds what they held.
  pub coalesce-Joined :
      left.is_leaf ≡ true
      → IsSorted cmp both
        × (both.num_key ≡ left.num_key + right.num_key)
        × ((key : K) (rid : Rid)
            → Holds cmp both key rid ↔ (Holds cmp left key rid ⊎ Holds cmp right key rid))
  unfolding insert_pairs
  coalesce-Joined left_leaf = (joined-IsSorted, refl, λ key rid. joined-Holds key rid left_leaf)
