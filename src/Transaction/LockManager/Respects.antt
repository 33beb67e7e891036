-- ===== src/Transaction/LockManager/Respects.antt =====
-- What the intention locks respect. The calls are those of
-- src/transaction/concurrency/lock_manager.cpp.
use grmdb.Base.{
  ◌≡◌, ◌≢◌, sym, ap, subst, sym, List, [], ◌∷◌, true, arith, if◌then◌else◌, any, inl, inr,
  Bool-cases,
}
use grmdb.Base.Int.{ℤ}
use grmdb.Transaction.Defs.{TransactionState, LockDataId, Transaction}
use grmdb.Transaction.LockManager.{
  LockRequest, LockRequestQueue, GroupMode, Outcome, returned, is_of, wait_die, is_other_hold,
  request_is, repeat_is, lock_is_on_table,
}
use grmdb.Transaction.LockManager.WaitDie.{wait_die-IsWaitOrDie}
use grmdb.Transaction.LockManager.Compatible.{with_mode}
use grmdb.Transaction.LockManager.Intention.{repeat_ix, request_ix, lock_ix_on_table}

module _ {M : Type 0} where
  -- The call does not end with the lock.
  abbrev pub IsRefused : Outcome × LockRequestQueue M × Transaction → Type 0
  IsRefused (outcome, q', txn') = outcome ≢ returned true

  pub wait_die-IsRefused :
      (q : LockRequestQueue M) (txn : Transaction) → IsRefused (wait_die q txn.txn_id txn)
  wait_die-IsRefused q txn granted = elim (wait_die-IsWaitOrDie q txn) [
    | inl (waits, _, _, _) ↦ ground arith
    | inr (dies, _, _, _, _) ↦ ground arith
  ]

  -- The queue of a table that somebody holds exclusively.
  abbrev held_queue : LockRequestQueue M → List (LockRequest M) → LockRequestQueue M
  held_queue q reqs = with_mode q reqs GroupMode.tab_x

  request_is-IsRefused :
      (q : LockRequestQueue M) (reqs : List (LockRequest M)) (txn : Transaction) (id : LockDataId)
      → is_other_hold (held_queue q reqs) txn.txn_id ≡ true
      → IsRefused (request_is (held_queue q reqs) txn id)
  unfolding request_is is_other_hold any
  request_is-IsRefused q [] txn id held = absurd (ground arith)
  request_is-IsRefused q (r ∷ reqs) txn id held = wait_die-IsRefused _ txn

  request_ix-IsRefused :
      (q : LockRequestQueue M) (reqs : List (LockRequest M)) (txn : Transaction) (id : LockDataId)
      → is_other_hold (held_queue q reqs) txn.txn_id ≡ true
      → IsRefused (request_ix (held_queue q reqs) txn id)
  unfolding request_ix is_other_hold any
  request_ix-IsRefused q [] txn id held = absurd (ground arith)
  request_ix-IsRefused q (r ∷ reqs) txn id held = wait_die-IsRefused _ txn

  -- Either call, on a queue that holds a request of the transaction or none.
  old_or_new :
      (q : LockRequestQueue M) (txn : Transaction) (id : LockDataId)
      → is_other_hold (held_queue q q.request_queue) txn.txn_id ≡ true
      → let q' = held_queue q q.request_queue in
        IsRefused (
          if any (is_of txn.txn_id) q.request_queue
          then repeat_is q' txn id
          else request_is q' txn id)
        × IsRefused (
            if any (is_of txn.txn_id) q.request_queue
            then repeat_ix q' txn id
            else request_ix q' txn id)
  unfolding repeat_is repeat_ix
  old_or_new q txn id held = elim (Bool-cases (any (is_of txn.txn_id) q.request_queue)) [
    | inl old ↦ rw (old, held) (wait_die-IsRefused _ txn, wait_die-IsRefused _ txn)
    | inr new ↦ rw new (
      request_is-IsRefused q q.request_queue txn id held,
      request_ix-IsRefused q q.request_queue txn id held,
    )
  ]

  abbrev BothRefused : LockRequestQueue M → Transaction → ℤ → Type 0
  BothRefused q txn tab_fd =
      IsRefused (lock_is_on_table q txn tab_fd) × IsRefused (lock_ix_on_table q txn tab_fd)

  by_state :
      (q : LockRequestQueue M) (state : TransactionState) (txn : Transaction) (tab_fd : ℤ)
      → is_other_hold (held_queue q q.request_queue) txn.txn_id ≡ true
      → BothRefused (held_queue q q.request_queue) (record txn { state = state }) tab_fd
  unfolding lock_is_on_table lock_ix_on_table
  by_state q TransactionState.aborted txn tab_fd held = ground arith
  by_state q TransactionState.shrinking txn tab_fd held = ground arith
  by_state q TransactionState.default txn tab_fd held = old_or_new q _ _ held
  by_state q TransactionState.growing txn tab_fd held = old_or_new q _ _ held
  by_state q TransactionState.committed txn tab_fd held = old_or_new q _ _ held

  -- In the queue of a table that another transaction holds exclusively, neither intention lock is
  -- given at once: the call waits or throws, or the transaction is aborted already.
  pub intention_locks_respect_exclusive :
      (q : LockRequestQueue M) (txn : Transaction) (tab_fd : ℤ)
      → q.group_mode ≡ GroupMode.tab_x
      → is_other_hold q txn.txn_id ≡ true
      → ((lock_is_on_table q txn tab_fd).0 ≢ returned true)
        × ((lock_ix_on_table q txn tab_fd).0 ≢ returned true)
  intention_locks_respect_exclusive q txn tab_fd mode held =
      let same : held_queue q q.request_queue ≡ q = ap (with_mode q q.request_queue) (sym mode) in
      subst (λ p. BothRefused p txn tab_fd) same
        (by_state q txn.state txn tab_fd
          (subst (λ p. is_other_hold p txn.txn_id ≡ true) (sym same) held))
