-- ===== src/Execution/Join/Restart.antt =====
-- A join as an input of a join: it cannot be begun again, and gives each tuple once.
use grmdb.Base.{
  ℕ, zero, suc, ◌≡◌, refl, sym, ap, List, [], ◌∷◌, Bool, true, false, Option, none, some, ◌>>=◌,
  some_injective, if◌then◌else◌, Bool-cases, inl, inr,
}
use grmdb.Execution.Executor.{Executor, Yields, Starts}
use grmdb.Execution.Join.{
  Join, make_record, advance, round, find_match, begin_join, take_tuple, join,
}
use grmdb.Execution.Join.Turn.{find_match_last}

module _ (left right : Executor) (evaluate_join : List ℕ → Option Bool) where
  -- A join that has come to its end yields nothing when it is begun again, whatever its inputs
  -- yield.
  pub begin_join_again :
      (fuel : ℕ) (s : Join left right) (l : left.State) (r : right.State)
      → s.is_last_tuple ≡ true
      → s.isend ≡ true
      → left.begin_tuple s.left ≡ some l
      → right.begin_tuple s.right ≡ some r
      → Starts (join left right evaluate_join (suc fuel)) s []
  unfolding begin_join
  begin_join_again fuel s l r last ended e e' =
      let here = record s { left = l; right = r } in
      let ended_here = record here { is_last_tuple = true; isend = true } in
      let loop = find_match_last left right evaluate_join fuel here last in
      elim (Bool-cases (left.is_end l)) [
        | inl empty ↦ (ended_here, rw (e, e', empty) refl, refl)
        | inr more ↦ elim (Bool-cases (right.is_end r)) [
          | inl empty ↦ (ended_here, rw (e, e', more, empty) refl, refl)
          | inr more' ↦ (here, rw (e, e', more, more') loop, ended)
        ]
      ]

  moved :
      (s s' : Join left right) (o : Option (List ℕ)) (tuple : List ℕ)
      → ◌>>=◌ {B = List ℕ × Join left right} o (λ t. some (t, record s { tuple = none }))
        ≡ some (tuple, s')
      → s'.tuple ≡ none
  moved s s' none tuple h = absurd (cc)
  moved s s' (some t) tuple h =
      sym (ap (λ x. x.1.tuple) (some_injective (t, record s { tuple = none }) (tuple, s') h))

  take_none : (s : Join left right) → s.tuple ≡ none → take_tuple left right evaluate_join s ≡ none
  unfolding take_tuple
  take_none s e = simp (take_tuple, e) refl

  -- A tuple is given once.
  take_tuple_twice :
      (s s' : Join left right) (tuple : List ℕ)
      → take_tuple left right evaluate_join s ≡ some (tuple, s')
      → take_tuple left right evaluate_join s' ≡ none
  unfolding take_tuple
  take_tuple_twice s s' tuple h = take_none s' (moved s s' s.tuple tuple h)

-- A join as the left input of a join, at a tuple, where the right input has two tuples left.
module _ (a b right : Executor) (inner_test evaluate_join : List ℕ → Option Bool)
    (inner_fuel : ℕ) where
  abbrev inner : Executor
  inner = join a b inner_test inner_fuel

  round_lost :
      (s : Join inner right) → s.left.tuple ≡ none → round inner right evaluate_join s ≡ none
  unfolding round
  round_lost s lost = simp (round, take_none a b inner_test s.left lost) refl

  find_match_lost :
      (fuel : ℕ) (s : Join inner right)
      → s.is_last_tuple ≡ false
      → s.left.tuple ≡ none
      → find_match inner right evaluate_join fuel s ≡ none
  unfolding find_match
  find_match_lost zero s more lost = refl
  find_match_lost (suc fuel) s more lost = simp (find_match, more, round_lost s lost) refl

  -- The first turn takes the tuple of the left input. In the next one that input has none, so that
  -- the loop fails, however the first test came out and whatever the fuel.
  pub round_after_join :
      (s : Join inner right) (l r r' : List ℕ) (rs : List (List ℕ)) (matched : Bool)
      → s.left.tuple ≡ some l
      → Yields right s.right (r ∷ r' ∷ rs)
      → evaluate_join (make_record l r) ≡ some matched
      → (s' : Join inner right) × (round inner right evaluate_join s ≡ some (s', matched))
        × ((fuel : ℕ) → find_match inner right evaluate_join fuel s' ≡ none)
  unfolding round take_tuple
  round_after_join s l r r' rs matched at (_, taken, e, rest, e', yields) test =
      let emptied = record (s.left) { tuple = none } in
      let given : inner.next s.left ≡ some (l, emptied) = simp (take_tuple, at) refl in
      let stays : advance inner right evaluate_join emptied taken ≡ some (emptied, rest, false) =
        rw (advance, e', yields.0) refl in
      (
        record {
          left = emptied;
          right = rest;
          is_last_tuple = false;
          isend = s.isend;
          tuple = if matched then some (make_record l r) else s.tuple;
        },
        rw (round, given, e, stays, test) refl,
        λ fuel. find_match_lost fuel _ refl refl,
      )
