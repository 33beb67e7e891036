-- ===== src/Execution/Join/Turn.antt =====
-- The loop of a join at its end, and at a turn.
use grmdb.Base.{ℕ, suc, ◌≡◌, refl, List, Bool, true, false, Option, some, if◌then◌else◌}
use grmdb.Execution.Executor.{Executor}
use grmdb.Execution.Join.{Join, round, find_match}

module _ (left right : Executor) (evaluate_join : List ℕ → Option Bool) where
  pub find_match_last :
      (fuel : ℕ) (s : Join left right)
      → s.is_last_tuple ≡ true
      → find_match left right evaluate_join (suc fuel) s ≡ some s
  unfolding find_match
  find_match_last fuel s last = simp (find_match, last) refl

  pub find_match_turn :
      (fuel : ℕ) (s s' : Join left right) (matched : Bool)
      → s.is_last_tuple ≡ false
      → round left right evaluate_join s ≡ some (s', matched)
      → find_match left right evaluate_join (suc fuel) s
        ≡ (if matched then some s' else find_match left right evaluate_join fuel s')
  unfolding find_match
  find_match_turn fuel s s' true more turn = simp (find_match, more, turn) refl
  find_match_turn fuel s s' false more turn = simp (find_match, more, turn) refl
