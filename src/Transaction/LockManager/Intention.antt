-- ===== src/Transaction/LockManager/Intention.antt =====
-- `lock_ix_on_table` of src/transaction/concurrency/lock_manager.cpp, on the table's queue.
use grmdb.Base.{[], ◌∷◌, true, false, if◌then◌else◌, any, update_first}
use grmdb.Base.Int.{ℤ}
use grmdb.Transaction.Defs.{TransactionState, LockDataId, table_id, AbortReason, Transaction}
use grmdb.Transaction.LockManager.{
  LockMode, GroupMode, LockRequestQueue, Outcome, returned, thrown, is_of, wait_die, is_other_hold,
  set_granted, pushed, new_request, lock_taken,
}

-- The modes that a request has after its transaction asks for IX too: beside IX, and beside an
-- exclusive lock of somebody else.
abbrev pub shared_to_exclusive : LockMode → LockMode
shared_to_exclusive LockMode.intension_shared = LockMode.intension_exclusive
shared_to_exclusive mode = mode

abbrev pub gap_or_exclusive : LockMode → LockMode
gap_or_exclusive LockMode.gap = LockMode.gap
gap_or_exclusive mode = LockMode.intension_exclusive

module _ {M : Type 0} where
  unfoldable pub set_mode : LockRequestQueue M → ℤ → (LockMode → LockMode) → LockRequestQueue M
  set_mode q txn_id change = record q {
    request_queue =
        update_first (is_of txn_id) (λ req. record req { lock_mode = change req.lock_mode })
          q.request_queue;
  }

  unfoldable pub request_ix :
      LockRequestQueue M → Transaction → LockDataId → Outcome × LockRequestQueue M × Transaction
  request_ix q txn id =
      let req = new_request txn.txn_id LockMode.intension_exclusive in
      let held = pushed q (record req { granted = true }) in
      elim q.request_queue [
        | [] ↦ (returned true, record held { group_mode = GroupMode.ix }, lock_taken txn id)
        | _ ∷ _ ↦ elim q.group_mode [
          | GroupMode.gap ↦ (returned true, held, lock_taken txn id)
          | GroupMode.ix ↦ (returned true, held, lock_taken txn id)
          | GroupMode.is ↦
              (returned true, record held { group_mode = GroupMode.ix }, lock_taken txn id)
          | GroupMode.tab_x ↦ wait_die (pushed q req) txn.txn_id txn
          | _ ↦ (returned true, pushed q req, lock_taken txn id)
        ]
      ]

  unfoldable pub repeat_ix :
      LockRequestQueue M → Transaction → LockDataId → Outcome × LockRequestQueue M × Transaction
  repeat_ix q txn id =
      let held = set_granted q txn.txn_id true in
      elim q.group_mode [
        | GroupMode.gap ↦ (returned true, set_mode held txn.txn_id shared_to_exclusive, txn)
        | GroupMode.ix ↦ (returned true, set_mode held txn.txn_id shared_to_exclusive, txn)
        | GroupMode.is ↦ (
          returned true,
          record (set_mode held txn.txn_id (λ mode. LockMode.intension_exclusive)) {
            group_mode = GroupMode.ix;
          },
          txn,
        )
        | GroupMode.tab_x ↦
            if is_other_hold q txn.txn_id
            then wait_die (set_mode (set_granted q txn.txn_id false) txn.txn_id gap_or_exclusive)
                txn.txn_id txn
            else (returned true, held, txn)
        | _ ↦ request_ix q txn id
      ]

  unfoldable pub lock_ix_on_table :
      LockRequestQueue M → Transaction → ℤ → Outcome × LockRequestQueue M × Transaction
  lock_ix_on_table q txn tab_fd = elim txn.state [
    | TransactionState.aborted ↦ (returned false, q, txn)
    | TransactionState.shrinking ↦
        (thrown AbortReason.lock_on_shrinking, q, record txn { state = TransactionState.aborted })
    | _ ↦
        if any (is_of txn.txn_id) q.request_queue
        then repeat_ix q txn (table_id tab_fd)
        else request_ix q txn (table_id tab_fd)
  ]
