-- ===== src/Transaction/LockManager/WaitDie.antt =====
-- Who waits for whom: wait-die, and the waits of `lock_is_on_table`.
use grmdb.Base.{
  ℕ, ◌≡◌, refl, ◌⊎◌, inl, inr, List, [], ◌∷◌, Bool, true, false, some, arith, get_elem?,
  if◌then◌else◌, any, any-remove_if, any-none, any-some, Bool-cases,
}
use grmdb.Base.Int.{ℤ, ltb_ℤ}
use grmdb.Transaction.Defs.{TransactionState, AbortReason, LockDataId, Transaction}
use grmdb.Transaction.LockManager.{
  LockRequest, LockRequestQueue, GroupMode, Outcome, thrown, waiting, is_of, inserts, drop_requests,
  wait_die, is_other_hold, request_is, repeat_is, lock_is_on_table,
}

module _ {M : Type 0} where
  -- No request of the queue is that of an older transaction.
  abbrev pub WaitsForYounger : Transaction → LockRequestQueue M → Type 0
  WaitsForYounger txn q =
      (i : ℕ) (req : LockRequest M)
      → get_elem? q.request_queue i ≡ some req
      → ltb_ℤ req.txn_id txn.txn_id ≡ false

  -- The transaction waits, and then nothing has changed and nobody in the queue is older; or
  -- somebody is older, and then it is aborted and nothing of it is left in the queue.
  abbrev pub IsWaitOrDie :
      LockRequestQueue M → Transaction → Outcome × LockRequestQueue M × Transaction → Type 0
  IsWaitOrDie q txn (outcome, q', txn') =
      ((outcome ≡ waiting) × (q' ≡ q) × (txn' ≡ txn) × WaitsForYounger txn q)
      ⊎ ((outcome ≡ thrown AbortReason.deadlock_prevention)
          × (txn'.state ≡ TransactionState.aborted)
          × (any (is_of txn.txn_id) q'.request_queue ≡ false)
          × (any (inserts txn.txn_id) q'.insert_keys ≡ false)
          × ((i : ℕ) × (req : LockRequest M) × (get_elem? q.request_queue i ≡ some req)
              × (ltb_ℤ req.txn_id txn.txn_id ≡ true)))

  -- A transaction either waits, which changes nothing, for transactions that are all younger, or it
  -- dies: there is an older one, and its own requests and keys leave the queue.
  pub wait_die-IsWaitOrDie :
      (q : LockRequestQueue M) (txn : Transaction) → IsWaitOrDie q txn (wait_die q txn.txn_id txn)
  unfolding wait_die drop_requests
  wait_die-IsWaitOrDie q txn =
      let older : LockRequest M → Bool = λ req. ltb_ℤ req.txn_id txn.txn_id in
      elim (Bool-cases (any older q.request_queue)) [
        | inl dies ↦ rw dies (
            inr (
              refl,
              refl,
              any-remove_if (is_of txn.txn_id) q.request_queue,
              any-remove_if (inserts txn.txn_id) q.insert_keys,
              any-some older q.request_queue dies,
            ))
        | inr waits ↦
            rw waits
              (inl (refl, refl, refl, λ i req at. any-none older q.request_queue i req waits at))
      ]

  -- What the callers rely on: they wait only in a queue without an older transaction.
  abbrev pub IsSafe : Transaction → Outcome × LockRequestQueue M × Transaction → Type 0
  IsSafe txn (outcome, q', txn') = outcome ≡ waiting → WaitsForYounger txn q'

  pub wait_die-IsSafe :
      (q : LockRequestQueue M) (txn : Transaction) → IsSafe txn (wait_die q txn.txn_id txn)
  wait_die-IsSafe q txn waits = elim (wait_die-IsWaitOrDie q txn) [
    | inl (_, same, _, younger) ↦ rw same younger
    | inr (dies, _, _, _, _) ↦ absurd (ground arith)
  ]

  -- The queue with the requests and the mode that a call tests.
  abbrev with_mode : LockRequestQueue M → List (LockRequest M) → GroupMode → LockRequestQueue M
  with_mode q reqs mode = record q { request_queue = reqs; group_mode = mode }

  request_by_mode :
      (q : LockRequestQueue M) (reqs : List (LockRequest M)) (mode : GroupMode) (txn : Transaction)
      (id : LockDataId)
      → IsSafe txn (request_is (with_mode q reqs mode) txn id)
  unfolding request_is
  request_by_mode q [] mode txn id = λ waits. absurd (ground arith)
  request_by_mode q (r ∷ reqs) GroupMode.tab_x txn id = wait_die-IsSafe _ txn
  request_by_mode q (r ∷ reqs) GroupMode.no_lock txn id = λ waits. absurd (ground arith)
  request_by_mode q (r ∷ reqs) GroupMode.s txn id = λ waits. absurd (ground arith)
  request_by_mode q (r ∷ reqs) GroupMode.x txn id = λ waits. absurd (ground arith)
  request_by_mode q (r ∷ reqs) GroupMode.gap txn id = λ waits. absurd (ground arith)
  request_by_mode q (r ∷ reqs) GroupMode.is txn id = λ waits. absurd (ground arith)
  request_by_mode q (r ∷ reqs) GroupMode.ix txn id = λ waits. absurd (ground arith)

  request_is-IsSafe :
      (q : LockRequestQueue M) (txn : Transaction) (id : LockDataId)
      → IsSafe txn (request_is q txn id)
  request_is-IsSafe q txn id = request_by_mode q q.request_queue q.group_mode txn id

  repeat_by_mode :
      (q : LockRequestQueue M) (mode : GroupMode) (txn : Transaction) (id : LockDataId)
      → IsSafe txn (repeat_is (with_mode q q.request_queue mode) txn id)
  unfolding repeat_is
  repeat_by_mode q GroupMode.tab_x txn id =
      elim (Bool-cases (is_other_hold (with_mode q q.request_queue GroupMode.tab_x) txn.txn_id)) [
        | inl held ↦ rw held (wait_die-IsSafe _ txn)
        | inr free ↦ rw free (λ waits. absurd (ground arith))
      ]
  repeat_by_mode q GroupMode.no_lock txn id = request_is-IsSafe _ txn id
  repeat_by_mode q GroupMode.s txn id = request_is-IsSafe _ txn id
  repeat_by_mode q GroupMode.x txn id = request_is-IsSafe _ txn id
  repeat_by_mode q GroupMode.gap txn id = λ waits. absurd (ground arith)
  repeat_by_mode q GroupMode.is txn id = λ waits. absurd (ground arith)
  repeat_by_mode q GroupMode.ix txn id = λ waits. absurd (ground arith)

  repeat_is-IsSafe :
      (q : LockRequestQueue M) (txn : Transaction) (id : LockDataId)
      → IsSafe txn (repeat_is q txn id)
  repeat_is-IsSafe q txn id = repeat_by_mode q q.group_mode txn id

  old_or_new :
      (q : LockRequestQueue M) (txn : Transaction) (id : LockDataId)
      → IsSafe txn (
          if any (is_of txn.txn_id) q.request_queue
          then repeat_is q txn id
          else request_is q txn id)
  old_or_new q txn id = elim (Bool-cases (any (is_of txn.txn_id) q.request_queue)) [
    | inl old ↦ rw old (repeat_is-IsSafe q txn id)
    | inr new ↦ rw new (request_is-IsSafe q txn id)
  ]

  lock_by_state :
      (q : LockRequestQueue M) (state : TransactionState) (txn : Transaction) (tab_fd : ℤ)
      → IsSafe
          (record txn { state = state })
          (lock_is_on_table q (record txn { state = state }) tab_fd)
  unfolding lock_is_on_table
  lock_by_state q TransactionState.aborted txn tab_fd = λ waits. absurd (ground arith)
  lock_by_state q TransactionState.shrinking txn tab_fd = λ waits. absurd (ground arith)
  lock_by_state q TransactionState.default txn tab_fd = old_or_new q _ _
  lock_by_state q TransactionState.growing txn tab_fd = old_or_new q _ _
  lock_by_state q TransactionState.committed txn tab_fd = old_or_new q _ _

  -- A transaction that waits for an intention shared lock waits only for younger ones.
  pub lock_is_on_table-WaitsForYounger :
      (q : LockRequestQueue M) (txn : Transaction) (tab_fd : ℤ)
      → (lock_is_on_table q txn tab_fd).0 ≡ waiting
      → WaitsForYounger txn (lock_is_on_table q txn tab_fd).1
  lock_is_on_table-WaitsForYounger q txn tab_fd waits = lock_by_state q txn.state txn tab_fd waits
