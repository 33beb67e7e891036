-- ===== src/Index/Node/Erase.antt =====
-- `erase_pair` and `remove` of a node: what the node holds afterwards.
use Prim.Native.Nat.{Ordering}
use grmdb.Base.{
  ℕ, ◌+◌, ◌-◌, ◌≤◌, ◌<◌, ◌≡◌, ◌≢◌, sym, ap, subst, ◌∙◌, ◌↔◌, inl, inr, true, Option, none, some,
  arith, ltb, dec_lt, Option-cases, if◌then◌else◌,
}
use grmdb.Defs.{Rid}
use grmdb.Index.Search.{IsFirst}
use grmdb.Index.Key.Order.{is_lt, IsOrder, Ordering-cases, irreflexive}
use grmdb.Index.Node.{IxNode, first_key, copy, move, lower_bound, erase_pair, remove_at, remove}
use grmdb.Index.Node.Sorted.{IsSorted, HasKeys, Holds, lower_bound-IsFirst, key-IsFirst}

-- The array whose items after pos have been moved down: its item i stood at `from pos i`.
module _ (pos : ℕ) where
  unfoldable pub from : ℕ → ℕ
  from i = if ltb i pos then i else i + 1

  pub from_le : (i : ℕ) → i ≤ from i
  unfolding from
  from_le i = ground arith

  pub from_lt : (i num : ℕ) → i < num - 1 → pos < num → from i < num
  unfolding from
  from_lt i num h g = ground arith

  pub from_ne : (i : ℕ) → from i ≢ pos
  unfolding from
  from_ne i e = ground arith

  pub from_mono : (i j : ℕ) → i < j → from i < from j
  unfolding from
  from_mono i j h = ground arith

  pub from-back :
      (first num i : ℕ)
      → first ≤ pos
      → pos < num
      → first ≤ i
      → i < num
      → i ≢ pos
      → (k : ℕ) × (first ≤ k) × (k < num - 1) × (from k ≡ i)
  unfolding from
  from-back first num i fp pn fi h other = elim (dec_lt i pos) [
    | yes under ↦ (i, fi, omega arith, ground arith)
    | no ge ↦ (i - 1, omega arith, omega arith, ground arith)
  ]

  pub closed {ℓ} :
      {A : Type ℓ} (a : ℕ → A) (num i : ℕ)
      → i < num - 1
      → move pos (pos + 1) (num - pos - 1) a i ≡ a (from i)
  unfolding from copy
  closed a num i h = elim (dec_lt i pos) [
    | yes under ↦ ground arith
    | no ge ↦ let e : pos + 1 + (i - pos) ≡ i + 1 = omega arith in ground (arith, ap a e)
  ]

module _ {K : Type 0} (cmp : K → K → Ordering) (order : IsOrder cmp) (node : IxNode K)
    (sorted : IsSorted cmp node) where
  module _ (pos : ℕ) (first : first_key node ≤ pos) (in_node : pos < node.num_key) where
    abbrev shrunk : IxNode K
    shrunk = erase_pair node pos

    keys-from : (i : ℕ) → i < node.num_key - 1 → shrunk.keys i ≡ node.keys (from pos i)
    unfolding erase_pair
    keys-from = closed pos node.keys node.num_key

    rids-from : (i : ℕ) → i < node.num_key - 1 → shrunk.rids i ≡ node.rids (from pos i)
    unfolding erase_pair
    rids-from = closed pos node.rids node.num_key

    -- The shrunk node is sorted.
    pub erase_pair-IsSorted : IsSorted cmp shrunk
    unfolding erase_pair
    erase_pair-IsSorted i j p q h =
        rw (keys-from i (omega arith), keys-from j h)
          (sorted (from pos i) (from pos j) (omega (arith, from_le pos i)) (from_mono pos i j q)
            (from_lt pos j node.num_key h in_node))

    keys-apart :
        (i : ℕ) → first_key node ≤ i → i < node.num_key → i ≢ pos → node.keys i ≢ node.keys pos
    keys-apart i p q other same = elim (dec_lt i pos) [
      | yes under ↦ ground (arith, sorted i pos p under in_node, irreflexive order _ _ same)
      | no ge ↦ ground (arith, sorted pos i first (omega arith) q, irreflexive order _ _ (sym same))
    ]

    -- The shrunk node holds what the node held, but for the key at pos.
    pub erase_pair-Holds :
        (j : K) (r : Rid) → Holds cmp shrunk j r ↔ (Holds cmp node j r × (j ≢ node.keys pos))
    unfolding erase_pair
    erase_pair-Holds j r = (
      λ (i, p, q, at, rid).
          let lt = from_lt pos i node.num_key q in_node in
          let le : first_key node ≤ from pos i = omega (arith, from_le pos i) in
          (
            (from pos i, le, lt, sym (keys-from i q) ∙ at, sym (rids-from i q) ∙ rid),
            λ is_key.
                keys-apart (from pos i) le lt (from_ne pos i) (sym (keys-from i q) ∙ at ∙ is_key),
          ),
      λ ((i, p, q, at, rid), other).
          let (k, le, lt, e) =
            from-back pos (first_key node) node.num_key i first in_node p q
              (λ e. other (sym at ∙ ap node.keys e)) in
          (k, le, lt, keys-from k lt ∙ ap node.keys e ∙ at, rids-from k lt ∙ ap node.rids e ∙ rid),
    )

  module _ (same_bytes : Discrete K) (key : K) where
    -- Every key of the node is below the key.
    abbrev pub AllBelow : Type 0
    AllBelow =
        (i : ℕ) → first_key node ≤ i → i < node.num_key → is_lt (cmp (node.keys i) key) ≡ true

    -- What `remove` promises: it reads in front of the keys where every key of the node is below the
    -- key, and otherwise the key is not there any more, and all else is.
    abbrev pub Removed : Option (IxNode K) → Type 0
    Removed none = AllBelow
    Removed (some node') =
        (AllBelow → ⊥)
        × IsSorted cmp node'
        × ((j : K) (r : Rid) → Holds cmp node' j r ↔ (Holds cmp node j r × (j ≢ key)))

    module _ (some_key : HasKeys cmp node) (s : ℕ)
        (first : IsFirst
          (λ m. is_lt (cmp (node.keys m) key))
          (first_key node)
          node.num_key
          (some s)) where
      some_above : AllBelow → ⊥
      some_above below = ground (arith, below s first.0 first.1, first.3 s (omega arith) first.1)

      -- A key that is not where it would be first is not in the node.
      unchanged : cmp key (node.keys s) ≢ Ordering.eq → Removed (some node)
      unchanged other = (
        some_above,
        sorted,
        λ j r. (
          λ held. (
            held,
            λ is_key.
                let (i, p, q, at, _) = held in
                let same =
                  key-IsFirst cmp order same_bytes node sorted some_key key s i first p q
                    (at ∙ is_key) in
                let found : node.keys s ≡ key = subst (λ n. node.keys n ≡ key) same (at ∙ is_key) in
                other (rw found (order.self key)),
          ),
          λ held. held.0,
        ),
      )

      remove_at-Removed : Removed (some (remove_at cmp same_bytes node key s))
      unfolding remove_at
      remove_at-Removed = elim (Ordering-cases (cmp key (node.keys s))) [
        | inl lt ↦ rw (remove_at, lt) (unchanged (λ e. ground arith))
        | inr (inr gt) ↦ rw (remove_at, gt) (unchanged (λ e. ground arith))
        | inr (inl eq) ↦
            let same = order.same key (node.keys s) eq in
            rw (remove_at, eq)
              (
                some_above,
                erase_pair-IsSorted s first.0 first.1,
                rw (← same) at (erase_pair-Holds s first.0 first.1),
              )
      ]

    -- From a sorted node that has keys `remove` takes the pair with the key, where there is one,
    -- and nothing else, and the node stays sorted; exactly where every key of the node is below the
    -- key it reads in front of the keys instead, which has no result.
    pub remove-Removed : HasKeys cmp node → Removed (remove cmp same_bytes node key)
    unfolding remove
    remove-Removed some_key =
        let first = lower_bound-IsFirst cmp order same_bytes node sorted key some_key in
        elim (Option-cases (lower_bound cmp same_bytes node key)) [
          | inl e ↦ rw (e, remove) (subst (IsFirst _ (first_key node) node.num_key) e first)
          | inr (s, e) ↦
              rw (e, remove)
                (remove_at-Removed some_key s
                  (subst (IsFirst _ (first_key node) node.num_key) e first))
        ]
