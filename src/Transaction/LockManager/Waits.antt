-- ===== src/Transaction/LockManager/Waits.antt =====
-- The waits for intention exclusive and exclusive table locks, and what the intention locks
-- respect. The calls are those of src/transaction/concurrency/lock_manager.cpp.
use grmdb.Base.{◌≡◌, List, [], ◌∷◌, arith, if◌then◌else◌, any, inl, inr, Bool-cases}
use grmdb.Base.Int.{ℤ, ℤ_discrete}
use grmdb.Transaction.Defs.{TransactionState, LockDataId, Transaction, invalid_txn_id}
use grmdb.Transaction.LockManager.{
  LockRequest, LockRequestQueue, GroupMode, waiting, is_of, is_other_hold,
}
use grmdb.Transaction.LockManager.WaitDie.{WaitsForYounger, IsSafe, wait_die-IsSafe}
use grmdb.Transaction.LockManager.Compatible.{with_mode, either_way}
use grmdb.Transaction.LockManager.Intention.{repeat_ix, request_ix, lock_ix_on_table}
use grmdb.Transaction.LockManager.Exclusive.{
  is_table_held, upgrade_x, request_x, lock_exclusive_on_table,
}

module _ {M : Type 0} where
  request_ix_by_mode :
      (q : LockRequestQueue M) (reqs : List (LockRequest M)) (mode : GroupMode) (txn : Transaction)
      (id : LockDataId)
      → IsSafe txn (request_ix (with_mode q reqs mode) txn id)
  unfolding request_ix
  request_ix_by_mode q [] mode txn id = λ waits. absurd (ground arith)
  request_ix_by_mode q (r ∷ reqs) GroupMode.tab_x txn id = wait_die-IsSafe _ txn
  request_ix_by_mode q (r ∷ reqs) GroupMode.no_lock txn id = λ waits. absurd (ground arith)
  request_ix_by_mode q (r ∷ reqs) GroupMode.s txn id = λ waits. absurd (ground arith)
  request_ix_by_mode q (r ∷ reqs) GroupMode.x txn id = λ waits. absurd (ground arith)
  request_ix_by_mode q (r ∷ reqs) GroupMode.gap txn id = λ waits. absurd (ground arith)
  request_ix_by_mode q (r ∷ reqs) GroupMode.is txn id = λ waits. absurd (ground arith)
  request_ix_by_mode q (r ∷ reqs) GroupMode.ix txn id = λ waits. absurd (ground arith)

  request_ix-IsSafe :
      (q : LockRequestQueue M) (txn : Transaction) (id : LockDataId)
      → IsSafe txn (request_ix q txn id)
  request_ix-IsSafe q txn id = request_ix_by_mode q q.request_queue q.group_mode txn id

  repeat_ix_by_mode :
      (q : LockRequestQueue M) (mode : GroupMode) (txn : Transaction) (id : LockDataId)
      → IsSafe txn (repeat_ix (with_mode q q.request_queue mode) txn id)
  unfolding repeat_ix
  repeat_ix_by_mode q GroupMode.tab_x txn id =
      elim (Bool-cases (is_other_hold (with_mode q q.request_queue GroupMode.tab_x) txn.txn_id)) [
        | inl held ↦ rw held (wait_die-IsSafe _ txn)
        | inr free ↦ rw free (λ waits. absurd (ground arith))
      ]
  repeat_ix_by_mode q GroupMode.no_lock txn id = request_ix-IsSafe _ txn id
  repeat_ix_by_mode q GroupMode.s txn id = request_ix-IsSafe _ txn id
  repeat_ix_by_mode q GroupMode.x txn id = request_ix-IsSafe _ txn id
  repeat_ix_by_mode q GroupMode.gap txn id = λ waits. absurd (ground arith)
  repeat_ix_by_mode q GroupMode.is txn id = λ waits. absurd (ground arith)
  repeat_ix_by_mode q GroupMode.ix txn id = λ waits. absurd (ground arith)

  old_or_new_ix :
      (q : LockRequestQueue M) (txn : Transaction) (id : LockDataId)
      → IsSafe txn (
          if any (is_of txn.txn_id) q.request_queue
          then repeat_ix q txn id
          else request_ix q txn id)
  old_or_new_ix q txn id = elim (Bool-cases (any (is_of txn.txn_id) q.request_queue)) [
    | inl old ↦ rw old (repeat_ix_by_mode q q.group_mode txn id)
    | inr new ↦ rw new (request_ix-IsSafe q txn id)
  ]

  lock_ix_by_state :
      (q : LockRequestQueue M) (state : TransactionState) (txn : Transaction) (tab_fd : ℤ)
      → IsSafe
          (record txn { state = state })
          (lock_ix_on_table q (record txn { state = state }) tab_fd)
  unfolding lock_ix_on_table
  lock_ix_by_state q TransactionState.aborted txn tab_fd = λ waits. absurd (ground arith)
  lock_ix_by_state q TransactionState.shrinking txn tab_fd = λ waits. absurd (ground arith)
  lock_ix_by_state q TransactionState.default txn tab_fd = old_or_new_ix q _ _
  lock_ix_by_state q TransactionState.growing txn tab_fd = old_or_new_ix q _ _
  lock_ix_by_state q TransactionState.committed txn tab_fd = old_or_new_ix q _ _

  request_x_by_mode :
      (q : LockRequestQueue M) (reqs : List (LockRequest M)) (mode : GroupMode) (txn : Transaction)
      (id : LockDataId)
      → IsSafe txn (request_x (with_mode q reqs mode) txn id)
  unfolding request_x
  request_x_by_mode q [] mode txn id = λ waits. absurd (ground arith)
  request_x_by_mode q (r ∷ reqs) GroupMode.no_lock txn id = λ waits. absurd (ground arith)
  request_x_by_mode q (r ∷ reqs) GroupMode.tab_x txn id = wait_die-IsSafe _ txn
  request_x_by_mode q (r ∷ reqs) GroupMode.s txn id = wait_die-IsSafe _ txn
  request_x_by_mode q (r ∷ reqs) GroupMode.x txn id = wait_die-IsSafe _ txn
  request_x_by_mode q (r ∷ reqs) GroupMode.gap txn id = wait_die-IsSafe _ txn
  request_x_by_mode q (r ∷ reqs) GroupMode.is txn id = wait_die-IsSafe _ txn
  request_x_by_mode q (r ∷ reqs) GroupMode.ix txn id = wait_die-IsSafe _ txn

  upgrade_x-IsSafe : (q : LockRequestQueue M) (txn : Transaction) → IsSafe txn (upgrade_x q txn)
  unfolding upgrade_x
  upgrade_x-IsSafe q txn =
      either_way (IsSafe txn) (ℤ_discrete q.upgrading invalid_txn_id)
        (elim (Bool-cases (is_table_held q txn.txn_id)) [
          | inl held ↦ rw held (wait_die-IsSafe _ txn)
          | inr free ↦ rw free (λ waits. absurd (ground arith))
        ])
        (λ waits. absurd (ground arith))

  old_or_new_x :
      (q : LockRequestQueue M) (txn : Transaction) (id : LockDataId)
      → IsSafe txn
          (if any (is_of txn.txn_id) q.request_queue then upgrade_x q txn else request_x q txn id)
  old_or_new_x q txn id = elim (Bool-cases (any (is_of txn.txn_id) q.request_queue)) [
    | inl old ↦ rw old (upgrade_x-IsSafe q txn)
    | inr new ↦ rw new (request_x_by_mode q q.request_queue q.group_mode txn id)
  ]

  lock_x_by_state :
      (q : LockRequestQueue M) (state : TransactionState) (txn : Transaction) (tab_fd : ℤ)
      → IsSafe
          (record txn { state = state })
          (lock_exclusive_on_table q (record txn { state = state }) tab_fd)
  unfolding lock_exclusive_on_table
  lock_x_by_state q TransactionState.aborted txn tab_fd = λ waits. absurd (ground arith)
  lock_x_by_state q TransactionState.shrinking txn tab_fd = λ waits. absurd (ground arith)
  lock_x_by_state q TransactionState.default txn tab_fd = old_or_new_x q _ _
  lock_x_by_state q TransactionState.growing txn tab_fd = old_or_new_x q _ _
  lock_x_by_state q TransactionState.committed txn tab_fd = old_or_new_x q _ _

  -- A transaction that waits for an intention exclusive lock waits only in a queue in which
  -- nobody is older.
  pub lock_ix_on_table-WaitsForYounger :
      (q : LockRequestQueue M) (txn : Transaction) (tab_fd : ℤ)
      → (lock_ix_on_table q txn tab_fd).0 ≡ waiting
      → WaitsForYounger txn (lock_ix_on_table q txn tab_fd).1
  lock_ix_on_table-WaitsForYounger q txn tab_fd waits =
      lock_ix_by_state q txn.state txn tab_fd waits

  -- A transaction that waits for an exclusive lock of a table, new or an upgrade, waits only in a
  -- queue in which nobody is older.
  pub lock_exclusive_on_table-WaitsForYounger :
      (q : LockRequestQueue M) (txn : Transaction) (tab_fd : ℤ)
      → (lock_exclusive_on_table q txn tab_fd).0 ≡ waiting
      → WaitsForYounger txn (lock_exclusive_on_table q txn tab_fd).1
  lock_exclusive_on_table-WaitsForYounger q txn tab_fd waits =
      lock_x_by_state q txn.state txn tab_fd waits
