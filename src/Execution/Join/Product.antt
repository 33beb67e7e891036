-- ===== src/Execution/Join/Product.antt =====
-- A join yields the pairs of its inputs that match, in the order of the left input and then the
-- right.
use grmdb.Base.{
  ℕ, zero, suc, ◌≤◌, ◌<◌, ◌≡◌, refl, sym, ap, subst, ◌∙◌, ◌⊎◌, inl, inr, List, [], ◌∷◌, ◌++◌, Bool,
  true, false, ◌&&◌, not, Option, none, some, ◌>>=◌, bind_some, some_injective, Bool-cases,
  if◌then◌else◌, length, arith,
}
use grmdb.Execution.Executor.{Executor, Yields, Starts}
use grmdb.Execution.Join.{
  Join, make_record, advance, round, find_match, new_join, begin_join, next_join, take_tuple, join,
}
use grmdb.Execution.Join.Turn.{find_match_last, find_match_turn}

abbrev pub with_right : List ℕ → List (List ℕ) → List (List ℕ)
with_right l [] = []
with_right l (r ∷ rs) = make_record l r ∷ with_right l rs

-- Every tuple of the one with every tuple of the other.
abbrev pub product : List (List ℕ) → List (List ℕ) → List (List ℕ)
product [] rs = []
product (l ∷ ls) rs = with_right l rs ++ product ls rs

-- The tuples that match, where no test throws.
abbrev pub matching : (List ℕ → Option Bool) → List (List ℕ) → Option (List (List ℕ))
matching test [] = some []
matching test (tuple ∷ tuples) = test tuple >>= (λ matched.
    matching test tuples >>= (λ rest. some (if matched then tuple ∷ rest else rest)))

module _ (left right : Executor) (evaluate_join : List ℕ → Option Bool) (all : List (List ℕ))
    (rereads : (s : left.State) (tuple : List ℕ) (taken : left.State)
      → left.next s ≡ some (tuple, taken)
      → taken ≡ s)
    (restarts : (s : right.State) → Starts right s all) where
  -- The inputs with the pairs in front of the loop, the flag telling that there are none.
  abbrev Goes : left.State × right.State × Bool → List (List ℕ) → Type 0
  Goes after pairs =
      ((after.2 ≡ true) × (pairs ≡ []))
      ⊎ ((after.2 ≡ false)
          × (l r : List ℕ) × (ls rs : List (List ℕ)) × Yields left after.0 (l ∷ ls)
          × Yields right after.1 (r ∷ rs)
          × (pairs ≡ with_right l (r ∷ rs) ++ product ls all))

  advance-Goes :
      (first : List ℕ) (others : List (List ℕ)) (l : List ℕ) (ls rs : List (List ℕ))
      (sl : left.State) (sr sr' : right.State)
      → all ≡ first ∷ others
      → Yields left sl (l ∷ ls)
      → right.next_tuple sr ≡ some sr'
      → Yields right sr' rs
      → (after : left.State × right.State × Bool) × (advance left right evaluate_join sl sr
          ≡ some after)
        × Goes after (with_right l rs ++ product ls all)
  unfolding advance
  advance-Goes first others l ls (r ∷ rs) sl sr sr' some_right yields e yields' = (
    (sl, sr', false),
    rw (advance, e, yields'.0) refl,
    inr (refl, l, r, ls, rs, yields, yields', refl),
  )
  advance-Goes first others l [] [] sl sr sr' some_right (more, taken, e', rest, e'', ended) e
        ended' =
      let (begun, e3, yields) = restarts sr' in
      let same = rereads sl l taken e' in
      let e4 : left.next_tuple sl ≡ some rest =
        subst (λ x. left.next_tuple x ≡ some rest) same e'' in
      ((rest, begun, left.is_end rest), rw (advance, e, ended', e4, e3) refl, inl (ended, refl))
  advance-Goes first others l (l' ∷ ls) [] sl sr sr' some_right
        (more, taken, e', rest, e'', yields') e ended' =
      let (begun, e3, yields) = restarts sr' in
      let same = rereads sl l taken e' in
      let e4 : left.next_tuple sl ≡ some rest =
        subst (λ x. left.next_tuple x ≡ some rest) same e'' in
      (
        (rest, begun, left.is_end rest),
        rw (advance, e, ended', e4, e3) refl,
        inr (
          yields'.0,
          l',
          first,
          ls,
          others,
          yields',
          subst (Yields right begun) some_right yields,
          ap (λ x. with_right l' x ++ product ls all) some_right,
        ),
      )

  abbrev Pending : Join left right → List (List ℕ) → Type 0
  Pending s pairs = Goes (s.left, s.right, s.is_last_tuple) pairs

  -- A turn of the loop takes the first pair.
  round-Pending :
      (first : List ℕ) (others : List (List ℕ)) (s : Join left right) (pair : List ℕ)
      (pairs : List (List ℕ)) (matched : Bool)
      → all ≡ first ∷ others
      → Pending s (pair ∷ pairs)
      → evaluate_join pair ≡ some matched
      → (s' : Join left right) × (round left right evaluate_join s ≡ some (s', matched))
        × Pending s' pairs
        × (s'.isend ≡ (if s'.is_last_tuple then not matched else s.isend))
        × (s'.tuple ≡ (if matched then some pair else s.tuple))
  unfolding round
  round-Pending first others s pair pairs matched some_right pending test = elim pending [
    | inl (_, e) ↦ absurd (cc)
    | inr (more, l, r, ls, rs, yields, (more_right, taken, e', rest, e'', yields'), e) ↦
        let (_, held, e3, _, _, _) = yields in
        let same = rereads s.left l held e3 in
        let (after, e4, goes) =
          advance-Goes first others l ls rs s.left taken rest some_right yields e'' yields' in
        let pair_is : pair ≡ make_record l r = cc in
        let pairs_are : with_right l rs ++ product ls all ≡ pairs = cc in
        let e5 : advance left right evaluate_join held taken ≡ some after =
          subst (λ x. advance left right evaluate_join x taken ≡ some after) (sym same) e4 in
        let test' : evaluate_join (make_record l r) ≡ some matched = rw (← pair_is) test in
        (
          record {
            left = after.0;
            right = after.1;
            is_last_tuple = after.2;
            isend = if after.2 then not matched else s.isend;
            tuple = if matched then some (make_record l r) else s.tuple;
          },
          rw (round, e3, e', e5, test') refl,
          subst (Goes after) pairs_are goes,
          refl,
          rw pair_is refl,
        )
  ]

  -- The executor at a tuple that matches, with those behind it, or at its end.
  abbrev Found : ℕ → Join left right → List (List ℕ) → Type 0
  Found bound s [] = s.isend ≡ true
  Found bound s (tuple ∷ tuples) =
      (s.isend ≡ false)
      × (s.tuple ≡ some tuple)
      × (pairs : List (List ℕ)) × Pending s pairs
      × (matching evaluate_join pairs ≡ some tuples)
      × (length pairs ≤ bound)

  some-Pending :
      (s : Join left right) (pair : List ℕ) (pairs : List (List ℕ))
      → Pending s (pair ∷ pairs)
      → s.is_last_tuple ≡ false
  some-Pending s pair pairs pending = elim pending [
    | inl (_, e) ↦ absurd (cc)
    | inr (more, l, r, ls, rs, _, _, e) ↦ more
  ]

  none-Pending : (s : Join left right) → Pending s [] → s.is_last_tuple ≡ true
  none-Pending s pending = elim pending [
    | inl (last, _) ↦ last
    | inr (_, l, r, ls, rs, _, _, e) ↦ absurd (cc)
  ]

  -- The loop finds the next pair that matches.
  find_match-Found :
      (first : List ℕ) (others : List (List ℕ)) (fuel bound : ℕ) (s : Join left right)
      (pairs tuples : List (List ℕ))
      → all ≡ first ∷ others
      → Pending s pairs
      → s.isend ≡ s.is_last_tuple
      → matching evaluate_join pairs ≡ some tuples
      → length pairs < fuel
      → length pairs ≤ bound
      → (s' : Join left right) × (find_match left right evaluate_join fuel s ≡ some s')
        × Found bound s' tuples
  unfolding find_match
  find_match-Found first others zero bound s pairs tuples some_right pending ends e enough le =
      absurd (omega (arith, enough))
  find_match-Found first others (suc fuel) bound s [] tuples some_right pending ends e enough le =
      let last = none-Pending s pending in
      let none_left = some_injective [] tuples e in
      (
        s,
        find_match_last left right evaluate_join fuel s last,
        subst (Found bound s) none_left (ends ∙ last),
      )
  find_match-Found first others (suc fuel) bound s (pair ∷ pairs) tuples some_right pending ends e
        enough le =
      let more = some-Pending s pair pairs pending in
      let (matched, test, e') =
        bind_some (evaluate_join pair)
          (λ matched.
            matching evaluate_join pairs >>= (λ rest. some (if matched then pair ∷ rest else rest)))
          tuples e in
      let (rest, e'', e3) =
        bind_some (matching evaluate_join pairs)
          (λ rest. some (if matched then pair ∷ rest else rest)) tuples e' in
      let tuples_are = some_injective (if matched then pair ∷ rest else rest) tuples e3 in
      let (s', turn, pending', ends', tuple) =
        round-Pending first others s pair pairs matched some_right pending test in
      let found_at = find_match_turn left right evaluate_join fuel s s' matched more turn in
      elim (Bool-cases matched) [
        | inl yes_matched ↦ (
          s',
          found_at
              ∙ ap (λ b. if b then some s' else find_match left right evaluate_join fuel s')
                  yes_matched,
          subst (Found bound s')
              (sym (ap (λ b. if b then pair ∷ rest else rest) yes_matched) ∙ tuples_are)
              (
                ground (arith, ends', yes_matched, ends, more),
                tuple ∙ ap (λ b. if b then some pair else s.tuple) yes_matched,
                pairs,
                pending',
                e'',
                omega (arith, le),
              ),
        )
        | inr not_matched ↦
            let (s'', e4, found) =
              find_match-Found first others fuel bound s' pairs rest some_right pending'
                (ground (arith, ends', not_matched, ends, more)) e'' (omega (arith, enough))
                (omega (arith, le)) in
            (
              s'',
              found_at
                  ∙ (ap (λ b. if b then some s' else find_match left right evaluate_join fuel s')
                        not_matched
                      ∙ e4),
              subst (Found bound s'')
                  (sym (ap (λ b. if b then pair ∷ rest else rest) not_matched) ∙ tuples_are) found,
            )
      ]

  module _ (first : List ℕ) (others : List (List ℕ)) (some_right : all ≡ first ∷ others)
      (fuel bound : ℕ) (enough : bound < fuel) where
    Found-Yields :
        (tuples : List (List ℕ)) (s : Join left right)
        → Found bound s tuples
        → Yields (join left right evaluate_join fuel) s tuples
    unfolding next_join take_tuple
    Found-Yields [] s found = found
    Found-Yields (tuple ∷ tuples) s (more, at, pairs, pending, e, le) =
        let taken = record s { tuple = none } in
        let turned = record taken {
          isend = if s.is_last_tuple && not s.isend then true else s.isend;
        } in
        let (s', e', found) =
          find_match-Found first others fuel bound turned pairs tuples some_right pending
            (ground (arith, more)) e (omega (arith, enough, le)) le in
        (more, taken, simp (at) refl, s', e', Found-Yields tuples s' found)

  product_empty : (ls : List (List ℕ)) → product ls [] ≡ []
  product_empty [] = refl
  product_empty (l ∷ ls) = product_empty ls

  abbrev at_end : (l : left.State) (r : right.State) (s : Join left right) → Join left right
  at_end l r s = record s { left = l; right = r; is_last_tuple = true; isend = true }

  join_begun :
      (fuel : ℕ) (l : left.State) (r : right.State) (l' : List ℕ) (ls tuples : List (List ℕ))
      (begun : left.State) (begun_right : right.State) (rs : List (List ℕ))
      → all ≡ rs
      → left.begin_tuple l ≡ some begun
      → Yields left begun (l' ∷ ls)
      → right.begin_tuple r ≡ some begun_right
      → Yields right begun_right rs
      → matching evaluate_join (product (l' ∷ ls) all) ≡ some tuples
      → length (product (l' ∷ ls) all) < fuel
      → Starts (join left right evaluate_join fuel) (new_join left right l r) tuples
  unfolding begin_join new_join
  join_begun fuel l r l' ls tuples begun begun_right [] none_right e yields e'' ended e' enough =
      let s = at_end begun begun_right (new_join left right l r) in
      let none_left = some_injective [] tuples (
        sym (
          ap (matching evaluate_join) (ap (product (l' ∷ ls)) none_right ∙ product_empty (l' ∷ ls)))
        ∙ e') in
      (
        s,
        rw (e, e'', yields.0, ended) refl,
        subst (Yields (join left right evaluate_join fuel) s) none_left refl,
      )
  join_begun fuel l r l' ls tuples begun begun_right (first ∷ others) some_right e yields e''
        yields' e' enough =
      let s = record (new_join left right l r) { left = begun; right = begun_right } in
      let pairs = product (l' ∷ ls) all in
      let pending : Pending s pairs = inr (
        refl,
        l',
        first,
        ls,
        others,
        yields,
        yields',
        ap (λ x. with_right l' x ++ product ls all) some_right,
      ) in
      let (s', e3, found) =
        find_match-Found first others fuel (length pairs) s pairs tuples some_right pending refl e'
          enough (omega arith) in
      (
        s',
        rw (e, e'', yields.0, yields'.0) e3,
        Found-Yields first others some_right fuel (length pairs) enough tuples s' found,
      )

  -- From its construction on, a join yields those pairs of its inputs that match, in the order of
  -- the left input and then of the right: where the left input yields its tuples and gives the same
  -- tuple again, the right one yields its tuples whenever it is begun, no test throws, and the fuel
  -- is above the number of the pairs.
  pub join-Starts :
      (fuel : ℕ) (l : left.State) (r : right.State) (ls tuples : List (List ℕ))
      → Starts left l ls
      → matching evaluate_join (product ls all) ≡ some tuples
      → length (product ls all) < fuel
      → Starts (join left right evaluate_join fuel) (new_join left right l r) tuples
  unfolding begin_join new_join
  join-Starts fuel l r [] tuples (begun, e, ended) e' enough =
      let (begun_right, e'', _) = restarts r in
      (
        at_end begun begun_right (new_join left right l r),
        rw (e, e'', ended) refl,
        subst
            (Yields (join left right evaluate_join fuel)
              (at_end begun begun_right (new_join left right l r)))
            (some_injective [] tuples e') refl,
      )
  join-Starts fuel l r (l' ∷ ls) tuples (begun, e, yields) e' enough =
      let (begun_right, e'', yields') = restarts r in
      join_begun fuel l r l' ls tuples begun begun_right all refl e yields e'' yields' e' enough
