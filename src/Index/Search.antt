-- ===== src/Index/Search.antt =====
-- The binary search of the four `lower_bound` and `upper_bound` of src/index/ix_index_handle.cpp: a
-- `while (l < r)` that halves [l, r], and goes right where its test holds.
use grmdb.Base.{
  ℕ, zero, suc, ◌+◌, ◌-◌, ◌/◌, ◌≤◌, ◌<◌, ◌≡◌, refl, Bool, true, false, Option, none, some, arith,
  ltb, dec_lt, if◌then◌else◌, Bool-cases, ap, inl, inr,
}

module _ (go_right : ℕ → Bool) where
  -- The fuel bounds the rounds; r - l of them are enough.
  unfoldable pub bisect : ℕ → ℕ → ℕ → ℕ
  bisect zero l r = l
  bisect (suc fuel) l r =
      let m = (l + r) / 2 in
      let upper = bisect fuel (m + 1) r in
      let lower = bisect fuel l m in if ltb l r then (if go_right m then upper else lower) else l

  -- The loop, and the test of the key that it ends at; `none` is -1.
  unfoldable pub search : ℕ → ℕ → Option ℕ
  unfolding bisect
  search l size = let s = bisect size l (size - 1) in if go_right s then none else some s

  -- The search key by key: the first position at which the test fails.
  unfoldable pub linear_search : ℕ → ℕ → Option ℕ
  linear_search zero i = none
  linear_search (suc rounds) i =
      let rest = linear_search rounds (i + 1) in if go_right i then rest else some i

  -- s parts [l, r] : the test holds before it and, up to r, fails from it on.
  abbrev pub Parts : ℕ → ℕ → ℕ → Type 0
  Parts l r s =
      (l ≤ s)
      × (s ≤ r)
      × ((i : ℕ) → l ≤ i → i < s → go_right i ≡ true)
      × ((i : ℕ) → s ≤ i → i < r → go_right i ≡ false)

  -- The test, once it fails, fails up to the end.
  abbrev pub IsMonotone : ℕ → ℕ → Type 0
  IsMonotone l size = (i j : ℕ) → l ≤ i → i ≤ j → j < size → go_right j ≡ true → go_right i ≡ true

  module _ (l r m s : ℕ) (le : l ≤ m) (lt : m < r) where
    right-Parts : IsMonotone l (suc r) → go_right m ≡ true → Parts (m + 1) r s → Parts l r s
    right-Parts mono right (le_s, s_le, before, after) = (
      omega arith,
      s_le,
      λ i p q. elim (dec_lt m i) [
        | yes above ↦ before i (omega arith) q
        | no under ↦ mono i m p (omega arith) (omega arith) right
      ],
      after,
    )

    left-Parts : IsMonotone l (suc r) → go_right m ≡ false → Parts l m s → Parts l r s
    left-Parts mono left (le_s, s_le, before, after) = (
      le_s,
      omega arith,
      before,
      λ i p q. elim (dec_lt i m) [
        | yes under ↦ after i p under
        | no above ↦ ground (arith, mono m i le (omega arith) (omega arith))
      ],
    )

  narrow : (l m r : ℕ) → l ≤ m → IsMonotone l (suc r) → IsMonotone m (suc r)
  narrow l m r le mono i j p q h = mono i j (omega arith) q h

  bisect-Parts :
      (fuel l r : ℕ) → IsMonotone l (suc r) → l ≤ r → r - l ≤ fuel → Parts l r (bisect fuel l r)
  unfolding bisect
  bisect-Parts zero l r mono le enough =
      (omega arith, omega arith, λ i p q. absurd (omega arith), λ i p q. absurd (omega arith))
  bisect-Parts (suc fuel) l r mono le enough = elim (Bool-cases (ltb l r)) [
    | inr stop ↦
        rw stop
          (omega arith, omega arith, λ i p q. absurd (omega arith), λ i p q. absurd (ground arith))
    | inl more ↦
        let m = (l + r) / 2 in
        let lt : l < r = ground arith in
        rw more (elim (Bool-cases (go_right m)) [
          | inl right ↦ rw right (
              right-Parts l r m _ (omega arith) (omega arith) mono right (
                bisect-Parts fuel (m + 1) r (narrow l (m + 1) r (omega arith) mono) (omega arith)
                  (omega arith)))
          | inr left ↦ rw left (
              left-Parts l r m _ (omega arith) (omega arith) mono left (
                bisect-Parts fuel l m (λ i j p q h. mono i j p q (omega arith)) (omega arith)
                  (omega arith)))
        ])
  ]

  -- The first position of [l, size) at which the test fails.
  abbrev pub IsFirst : ℕ → ℕ → Option ℕ → Type 0
  IsFirst l size none = (i : ℕ) → l ≤ i → i < size → go_right i ≡ true
  IsFirst l size (some s) =
      (l ≤ s)
      × (s < size)
      × ((i : ℕ) → l ≤ i → i < s → go_right i ≡ true)
      × ((i : ℕ) → s ≤ i → i < size → go_right i ≡ false)

  -- On a range that is not empty, and on which the test never holds again once it has failed, the
  -- binary search finds the first position at which it fails, or none.
  pub search-IsFirst : (l size : ℕ) → IsMonotone l size → l < size → IsFirst l size (search l size)
  unfolding search
  search-IsFirst l zero mono some_key = elim some_key [ ]
  search-IsFirst l (suc r) mono some_key =
      let e : suc r - 1 ≡ r = omega arith in
      let s = bisect (suc r) l r in
      let (le_s, s_le, before, after) = bisect-Parts (suc r) l r mono (omega arith) (omega arith) in
      rw e (elim (Bool-cases (go_right s)) [
        | inl past ↦ rw past (λ i p q. elim (dec_lt s r) [
          | yes under ↦ ground (arith, after s (omega arith) under)
          | no last ↦ mono i s p (omega arith) (omega arith) past
        ])
        | inr here ↦ rw here (
          le_s,
          omega arith,
          before,
          λ i p q. elim (Bool-cases (go_right i)) [
            | inl right ↦ ground (arith, mono s i le_s p q right)
            | inr left ↦ left
          ],
        )
      ])

  later :
      (i size : ℕ) (found : Option ℕ)
      → go_right i ≡ true
      → IsFirst (i + 1) size found
      → IsFirst i size found
  later i size none past rest = λ j p q. elim (dec_lt i j) [
    | yes above ↦ rest j (omega arith) q
    | no same ↦ let e : j ≡ i = omega arith in rw e past
  ]
  later i size (some s) past (le, lt, before, after) = (
    omega arith,
    lt,
    λ j p q. elim (dec_lt i j) [
      | yes above ↦ before j (omega arith) q
      | no same ↦ let e : j ≡ i = omega arith in rw e past
    ],
    after,
  )

  linear_search-IsFirst :
      (rounds i size : ℕ)
      → IsMonotone i size
      → i + rounds ≡ size
      → IsFirst i size (linear_search rounds i)
  unfolding linear_search
  linear_search-IsFirst zero i size mono e = λ j p q. absurd (omega arith)
  linear_search-IsFirst (suc rounds) i size mono e = elim (Bool-cases (go_right i)) [
    | inr here ↦ rw here (
      omega arith,
      omega arith,
      λ j p q. absurd (omega arith),
      λ j p q. elim (Bool-cases (go_right j)) [
        | inl right ↦ ground (arith, mono i j (omega arith) p q right)
        | inr left ↦ left
      ],
    )
    | inl past ↦ rw past (
        later i size (linear_search rounds (i + 1)) past (
          linear_search-IsFirst rounds (i + 1) size (λ a b p q h. mono a b (omega arith) q h)
            (omega arith)))
  ]

  IsFirst-unique : (l size : ℕ) (a b : Option ℕ) → IsFirst l size a → IsFirst l size b → a ≡ b
  IsFirst-unique l size none none p q = refl
  IsFirst-unique l size none (some s) p (ls, lt, before, after) =
      ground (arith, p s ls lt, after s (omega arith) lt)
  IsFirst-unique l size (some s) none (ls, lt, before, after) q =
      ground (arith, q s ls lt, after s (omega arith) lt)
  IsFirst-unique l size (some s) (some t) (ls, lt, before, after) (ls', lt', before', after') =
      ap some
        (ground (arith, before t, before' s, after s (omega arith) lt, after' t (omega arith) lt'))

  -- On a range that is not empty, and on which the test never holds again once it has failed, the
  -- binary search finds what the search key by key finds.
  pub search-eq-linear_search :
      (l size : ℕ) → IsMonotone l size → l < size → search l size ≡ linear_search (size - l) l
  search-eq-linear_search l size mono some_key =
      IsFirst-unique l size _ _ (search-IsFirst l size mono some_key)
        (linear_search-IsFirst (size - l) l size mono (omega arith))
