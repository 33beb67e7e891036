-- ===== src/Transaction/LockManager/Records.antt =====
-- `lock_shared_on_record` of src/transaction/concurrency/lock_manager.cpp, on the record's queue,
-- and whom it waits for.
use grmdb.Base.{
  ap, subst, sym, ◌≡◌, ◌≢◌, true, false, arith, if◌then◌else◌, any, inl, inr, Bool-cases,
}
use grmdb.Base.Int.{ℤ}
use grmdb.Defs.{Rid}
use grmdb.Transaction.Defs.{TransactionState, LockDataId, record_id, AbortReason, Transaction}
use grmdb.Transaction.LockManager.{
  LockMode, GroupMode, LockRequestQueue, Outcome, returned, thrown, waiting, is_of, wait_die,
  is_other_hold, set_granted, pushed, new_request, lock_taken,
}
use grmdb.Transaction.LockManager.WaitDie.{WaitsForYounger, IsSafe, wait_die-IsSafe}
use grmdb.Transaction.LockManager.Compatible.{with_mode}
use grmdb.Transaction.LockManager.Respects.{IsRefused, wait_die-IsRefused}

module _ {M : Type 0} where
  unfoldable pub request_s :
      LockRequestQueue M → Transaction → LockDataId → Outcome × LockRequestQueue M × Transaction
  request_s q txn id =
      let req = new_request txn.txn_id LockMode.shared in
      elim q.group_mode [
        | GroupMode.x ↦ wait_die (pushed q req) txn.txn_id txn
        | _ ↦ (
          returned true,
          record (pushed q (record req { granted = true })) { group_mode = GroupMode.s },
          lock_taken txn id,
        )
      ]

  unfoldable pub repeat_s :
      LockRequestQueue M → Transaction → LockDataId → Outcome × LockRequestQueue M × Transaction
  repeat_s q txn id = elim q.group_mode [
    | GroupMode.x ↦
        if is_other_hold q txn.txn_id
        then wait_die (set_granted q txn.txn_id false) txn.txn_id txn
        else (returned true, set_granted q txn.txn_id true, txn)
    | GroupMode.s ↦ (returned true, set_granted q txn.txn_id true, txn)
    | _ ↦ request_s q txn id
  ]

  unfoldable pub lock_shared_on_record :
      LockRequestQueue M → Transaction → Rid → ℤ → Outcome × LockRequestQueue M × Transaction
  lock_shared_on_record q txn rid tab_fd = elim txn.state [
    | TransactionState.aborted ↦ (returned false, q, txn)
    | TransactionState.shrinking ↦
        (thrown AbortReason.lock_on_shrinking, q, record txn { state = TransactionState.aborted })
    | _ ↦
        if any (is_of txn.txn_id) q.request_queue
        then repeat_s q txn (record_id tab_fd rid)
        else request_s q txn (record_id tab_fd rid)
  ]

  request_by_mode :
      (q : LockRequestQueue M) (mode : GroupMode) (txn : Transaction) (id : LockDataId)
      → IsSafe txn (request_s (with_mode q q.request_queue mode) txn id)
  unfolding request_s
  request_by_mode q GroupMode.x txn id = wait_die-IsSafe _ txn
  request_by_mode q GroupMode.no_lock txn id = λ waits. absurd (ground arith)
  request_by_mode q GroupMode.s txn id = λ waits. absurd (ground arith)
  request_by_mode q GroupMode.tab_x txn id = λ waits. absurd (ground arith)
  request_by_mode q GroupMode.gap txn id = λ waits. absurd (ground arith)
  request_by_mode q GroupMode.is txn id = λ waits. absurd (ground arith)
  request_by_mode q GroupMode.ix txn id = λ waits. absurd (ground arith)

  repeat_by_mode :
      (q : LockRequestQueue M) (mode : GroupMode) (txn : Transaction) (id : LockDataId)
      → IsSafe txn (repeat_s (with_mode q q.request_queue mode) txn id)
  unfolding repeat_s
  repeat_by_mode q GroupMode.x txn id =
      elim (Bool-cases (is_other_hold (with_mode q q.request_queue GroupMode.x) txn.txn_id)) [
        | inl held ↦ rw held (wait_die-IsSafe _ txn)
        | inr free ↦ rw free (λ waits. absurd (ground arith))
      ]
  repeat_by_mode q GroupMode.s txn id = λ waits. absurd (ground arith)
  repeat_by_mode q GroupMode.no_lock txn id = request_by_mode q _ txn id
  repeat_by_mode q GroupMode.tab_x txn id = request_by_mode q _ txn id
  repeat_by_mode q GroupMode.gap txn id = request_by_mode q _ txn id
  repeat_by_mode q GroupMode.is txn id = request_by_mode q _ txn id
  repeat_by_mode q GroupMode.ix txn id = request_by_mode q _ txn id

  old_or_new :
      (q : LockRequestQueue M) (txn : Transaction) (id : LockDataId)
      → IsSafe txn
          (if any (is_of txn.txn_id) q.request_queue then repeat_s q txn id else request_s q txn id)
  old_or_new q txn id = elim (Bool-cases (any (is_of txn.txn_id) q.request_queue)) [
    | inl old ↦ rw old (repeat_by_mode q q.group_mode txn id)
    | inr new ↦ rw new (request_by_mode q q.group_mode txn id)
  ]

  lock_by_state :
      (q : LockRequestQueue M) (state : TransactionState) (txn : Transaction) (rid : Rid)
      (tab_fd : ℤ)
      → IsSafe
          (record txn { state = state })
          (lock_shared_on_record q (record txn { state = state }) rid tab_fd)
  unfolding lock_shared_on_record
  lock_by_state q TransactionState.aborted txn rid tab_fd = λ waits. absurd (ground arith)
  lock_by_state q TransactionState.shrinking txn rid tab_fd = λ waits. absurd (ground arith)
  lock_by_state q TransactionState.default txn rid tab_fd = old_or_new q _ _
  lock_by_state q TransactionState.growing txn rid tab_fd = old_or_new q _ _
  lock_by_state q TransactionState.committed txn rid tab_fd = old_or_new q _ _

  -- A transaction that waits for a shared lock of a record waits only in a queue in which nobody is
  -- older.
  pub lock_shared_on_record-WaitsForYounger :
      (q : LockRequestQueue M) (txn : Transaction) (rid : Rid) (tab_fd : ℤ)
      → (lock_shared_on_record q txn rid tab_fd).0 ≡ waiting
      → WaitsForYounger txn (lock_shared_on_record q txn rid tab_fd).1
  lock_shared_on_record-WaitsForYounger q txn rid tab_fd waits =
      lock_by_state q txn.state txn rid tab_fd waits

  -- The queue of a record that somebody holds exclusively.
  abbrev written_queue : LockRequestQueue M → LockRequestQueue M
  written_queue q = with_mode q q.request_queue GroupMode.x

  old_or_new-IsRefused :
      (q : LockRequestQueue M) (txn : Transaction) (id : LockDataId)
      → is_other_hold (written_queue q) txn.txn_id ≡ true
      → IsRefused (
          if any (is_of txn.txn_id) q.request_queue
          then repeat_s (written_queue q) txn id
          else request_s (written_queue q) txn id)
  unfolding repeat_s request_s
  old_or_new-IsRefused q txn id held = elim (Bool-cases (any (is_of txn.txn_id) q.request_queue)) [
    | inl old ↦ rw (old, held) (wait_die-IsRefused _ txn)
    | inr new ↦ rw new (wait_die-IsRefused _ txn)
  ]

  lock_by_state-IsRefused :
      (q : LockRequestQueue M) (state : TransactionState) (txn : Transaction) (rid : Rid)
      (tab_fd : ℤ)
      → is_other_hold (written_queue q) txn.txn_id ≡ true
      → IsRefused
          (lock_shared_on_record (written_queue q) (record txn { state = state }) rid tab_fd)
  unfolding lock_shared_on_record
  lock_by_state-IsRefused q TransactionState.aborted txn rid tab_fd held = ground arith
  lock_by_state-IsRefused q TransactionState.shrinking txn rid tab_fd held = ground arith
  lock_by_state-IsRefused q TransactionState.default txn rid tab_fd held =
      old_or_new-IsRefused q _ _ held
  lock_by_state-IsRefused q TransactionState.growing txn rid tab_fd held =
      old_or_new-IsRefused q _ _ held
  lock_by_state-IsRefused q TransactionState.committed txn rid tab_fd held =
      old_or_new-IsRefused q _ _ held

  -- No shared lock is given at once on a record that another transaction has written: in a queue of
  -- mode X with an exclusive request of another one granted, the call waits or throws, or the
  -- transaction is aborted already.
  pub shared_record_locks_respect_exclusive :
      (q : LockRequestQueue M) (txn : Transaction) (rid : Rid) (tab_fd : ℤ)
      → q.group_mode ≡ GroupMode.x
      → is_other_hold q txn.txn_id ≡ true
      → (lock_shared_on_record q txn rid tab_fd).0 ≢ returned true
  shared_record_locks_respect_exclusive q txn rid tab_fd mode held =
      let same : written_queue q ≡ q = ap (with_mode q q.request_queue) (sym mode) in
      subst (λ p. IsRefused (lock_shared_on_record p txn rid tab_fd)) same
        (lock_by_state-IsRefused q txn.state txn rid tab_fd
          (subst (λ p. is_other_hold p txn.txn_id ≡ true) (sym same) held))
