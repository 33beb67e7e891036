-- ===== src/Transaction/LockManager/Exclusive.antt =====
-- `lock_exclusive_on_table` of src/transaction/concurrency/lock_manager.cpp, on the table's queue.
use grmdb.Base.{ite, [], ◌∷◌, Bool, true, false, not, ◌&&◌, ◌||◌, if◌then◌else◌, any}
use grmdb.Base.Int.{ℤ, ℤ_discrete}
use grmdb.Transaction.Defs.{
  TransactionState, LockDataId, table_id, AbortReason, Transaction, invalid_txn_id,
}
use grmdb.Transaction.LockManager.{
  LockMode, GroupMode, LockRequest, LockRequestQueue, Outcome, returned, thrown, is_of, wait_die,
  set_granted, pushed, new_request, lock_taken,
}
use grmdb.Transaction.LockManager.Intention.{set_mode}

abbrev pub is_gap : LockMode → Bool
is_gap LockMode.gap = true
is_gap _ = false

abbrev pub is_gap_mode : GroupMode → Bool
is_gap_mode GroupMode.gap = true
is_gap_mode _ = false

module _ {M : Type 0} where
  -- Another transaction's request is granted, or holds a gap.
  abbrev pub holds_table : GroupMode → ℤ → LockRequest M → Bool
  holds_table mode txn_id req =
      not (is_of txn_id req)
      && (req.granted
          || (is_gap_mode mode && (is_gap req.lock_mode && any (λ g. not g.conflicted) req.gaps)))

  abbrev pub is_table_held : LockRequestQueue M → ℤ → Bool
  is_table_held q txn_id = any (holds_table q.group_mode txn_id) q.request_queue

  -- A transaction with a request in the queue asks for all of the table; one at a time may.
  unfoldable pub upgrade_x :
      LockRequestQueue M → Transaction → Outcome × LockRequestQueue M × Transaction
  upgrade_x q txn =
      ite (ℤ_discrete q.upgrading invalid_txn_id)
        (if is_table_held q txn.txn_id
          then wait_die
              (record (set_mode (set_granted q txn.txn_id false) txn.txn_id
                (λ _. LockMode.exclusive)) { upgrading = txn.txn_id })
              txn.txn_id txn
          else (
            returned true,
            record (set_mode (set_granted q txn.txn_id true) txn.txn_id (λ _. LockMode.exclusive)) {
              group_mode = GroupMode.tab_x;
              upgrading = invalid_txn_id;
            },
            txn,
          ))
        (thrown AbortReason.upgrade_conflict, q, record txn { state = TransactionState.aborted })

  unfoldable pub request_x :
      LockRequestQueue M → Transaction → LockDataId → Outcome × LockRequestQueue M × Transaction
  request_x q txn id =
      let req = new_request txn.txn_id LockMode.exclusive in
      let granted : Outcome × LockRequestQueue M × Transaction = (
        returned true,
        record (pushed q (record req { granted = true })) { group_mode = GroupMode.tab_x },
        lock_taken txn id,
      ) in
      elim q.request_queue [
        | [] ↦ granted
        | _ ∷ _ ↦ elim q.group_mode [
          | GroupMode.no_lock ↦ granted
          | _ ↦ wait_die (pushed q req) txn.txn_id txn
        ]
      ]

  unfoldable pub lock_exclusive_on_table :
      LockRequestQueue M → Transaction → ℤ → Outcome × LockRequestQueue M × Transaction
  lock_exclusive_on_table q txn tab_fd = elim txn.state [
    | TransactionState.aborted ↦ (returned false, q, txn)
    | TransactionState.shrinking ↦
        (thrown AbortReason.lock_on_shrinking, q, record txn { state = TransactionState.aborted })
    | _ ↦
        if any (is_of txn.txn_id) q.request_queue
        then upgrade_x q txn
        else request_x q txn (table_id tab_fd)
  ]
