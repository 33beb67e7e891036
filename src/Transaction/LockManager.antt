-- ===== src/Transaction/LockManager.antt =====
-- src/transaction/concurrency/lock_manager.h and .cpp: the request queue of a table or a record,
-- wait-die, and intention shared locks. An operation runs under the queue's latch up to the point
-- where it returns, throws or starts to wait, so it is one step; what it does once its request is
-- granted is another. Of a gap, the conditions and the index handle are left out.
pub mod Compatible
pub mod Waits
pub mod Respects
pub mod Exclusive
pub mod Release
pub mod Unlocked
pub mod Records
pub mod Intention
pub mod WaitDie
use grmdb.Base.{
  List, [], ◌∷◌, ◌++◌, Bool, true, false, ◌&&◌, not, Option, if◌then◌else◌, holds, remove_if, any,
  update_first, ℕ,
}
use grmdb.Base.Int.{ℤ, ltb_ℤ, ℤ_discrete}
use grmdb.Defs.{Rid}
use grmdb.Transaction.Defs.{
  TransactionState, LockDataId, table_id, AbortReason, invalid_txn_id, Transaction,
}

pub data LockMode : Type 0 where
  shared : LockMode
  exclusive : LockMode
  gap : LockMode
  intension_shared : LockMode
  intension_exclusive : LockMode

pub data GroupMode : Type 0 where
  no_lock : GroupMode
  s : GroupMode
  x : GroupMode
  gap : GroupMode
  tab_x : GroupMode
  is : GroupMode
  ix : GroupMode

-- The keys are bytes, `nullptr` is none; M is the metadata of the index.
pub record Gap (M : Type 0) : Type 0 where
  pub lower_key : Option (List ℕ)
  pub upper_key : Option (List ℕ)
  pub index_meta : M
  pub conflicted : Bool

pub record LockRequest (M : Type 0) : Type 0 where
  pub txn_id : ℤ
  pub lock_mode : LockMode
  pub granted : Bool
  pub gaps : List (Gap M)

pub record InsertKey (M : Type 0) : Type 0 where
  pub insert_key : List ℕ
  pub index_meta : M
  pub txn_id : ℤ
  pub rid : Rid
  pub is_waited : Bool

pub record LockRequestQueue (M : Type 0) : Type 0 where
  pub request_queue : List (LockRequest M)
  pub upgrading : ℤ
  pub group_mode : GroupMode
  pub insert_keys : List (InsertKey M)

-- How a call ends, or that it waits. `undefined` is the end of a function without a `return`.
pub data Outcome : Type 0 where
  returned : Bool → Outcome
  thrown : AbortReason → Outcome
  waiting : Outcome
  undefined : Outcome

abbrev pub is_exclusive : LockMode → Bool
is_exclusive LockMode.exclusive = true
is_exclusive _ = false

abbrev pub lock_taken : Transaction → LockDataId → Transaction
lock_taken txn id = record txn { lock_set = id ∷ txn.lock_set }

module _ {M : Type 0} where
  -- The constructor of a request.
  abbrev pub new_request : ℤ → LockMode → LockRequest M
  new_request txn_id lock_mode = record {
    txn_id = txn_id;
    lock_mode = lock_mode;
    granted = false;
    gaps = [];
  }

  abbrev pub is_of : ℤ → LockRequest M → Bool
  is_of txn_id req = holds (ℤ_discrete req.txn_id txn_id)

  abbrev pub inserts : ℤ → InsertKey M → Bool
  inserts txn_id key = holds (ℤ_discrete key.txn_id txn_id)

  -- The queue after the transaction dies in it.
  unfoldable pub drop_requests : LockRequestQueue M → Transaction → ℤ → LockRequestQueue M
  drop_requests q txn txn_id = record q {
    upgrading = if holds (ℤ_discrete q.upgrading txn.txn_id) then invalid_txn_id else q.upgrading;
    request_queue = remove_if (is_of txn_id) q.request_queue;
    insert_keys = remove_if (inserts txn_id) q.insert_keys;
  }

  -- The transaction dies if one with a smaller number has a request in the queue. `waiting` is the
  -- return of the call, after which its caller waits.
  unfoldable pub wait_die :
      LockRequestQueue M → ℤ → Transaction → Outcome × LockRequestQueue M × Transaction
  wait_die q txn_id txn =
      if any (λ req. ltb_ℤ req.txn_id txn.txn_id) q.request_queue
      then (
        thrown AbortReason.deadlock_prevention,
        drop_requests q txn txn_id,
        record txn { state = TransactionState.aborted },
      )
      else (waiting, q, txn)

  -- Somebody else holds the table exclusively.
  unfoldable pub is_other_hold : LockRequestQueue M → ℤ → Bool
  is_other_hold q txn_id =
      any (λ req. req.granted && (not (is_of txn_id req) && is_exclusive req.lock_mode))
        q.request_queue

  -- The transaction's first request is granted, or is no longer.
  unfoldable pub set_granted : LockRequestQueue M → ℤ → Bool → LockRequestQueue M
  set_granted q txn_id granted = record q {
    request_queue =
        update_first (is_of txn_id) (λ req. record req { granted = granted }) q.request_queue;
  }

  abbrev pub pushed : LockRequestQueue M → LockRequest M → LockRequestQueue M
  pushed q req = record q { request_queue = q.request_queue ++ req ∷ [] }

  -- The request of a transaction that has none in the queue, or one beside a mode of the group in
  -- which the first request is not looked at.
  unfoldable pub request_is :
      LockRequestQueue M → Transaction → LockDataId → Outcome × LockRequestQueue M × Transaction
  request_is q txn id =
      let req = new_request txn.txn_id LockMode.intension_shared in
      let held = pushed q (record req { granted = true }) in
      elim q.request_queue [
        | [] ↦ (returned true, record held { group_mode = GroupMode.is }, lock_taken txn id)
        | _ ∷ _ ↦ elim q.group_mode [
          | GroupMode.gap ↦ (returned true, held, lock_taken txn id)
          | GroupMode.is ↦ (returned true, held, lock_taken txn id)
          | GroupMode.ix ↦ (returned true, held, lock_taken txn id)
          | GroupMode.tab_x ↦ wait_die (pushed q req) txn.txn_id txn
          | _ ↦ (undefined, pushed q req, txn)
        ]
      ]

  -- The request of a transaction that has one in the queue already.
  unfoldable pub repeat_is :
      LockRequestQueue M → Transaction → LockDataId → Outcome × LockRequestQueue M × Transaction
  repeat_is q txn id = elim q.group_mode [
    | GroupMode.gap ↦ (returned true, set_granted q txn.txn_id true, txn)
    | GroupMode.is ↦ (returned true, set_granted q txn.txn_id true, txn)
    | GroupMode.ix ↦ (returned true, set_granted q txn.txn_id true, txn)
    | GroupMode.tab_x ↦
        if is_other_hold q txn.txn_id
        then wait_die (set_granted q txn.txn_id false) txn.txn_id txn
        else (returned true, set_granted q txn.txn_id true, txn)
    | _ ↦ request_is q txn id
  ]

  -- `lock_is_on_table` on the table's queue.
  unfoldable pub lock_is_on_table :
      LockRequestQueue M → Transaction → ℤ → Outcome × LockRequestQueue M × Transaction
  lock_is_on_table q txn tab_fd = elim txn.state [
    | TransactionState.aborted ↦ (returned false, q, txn)
    | TransactionState.shrinking ↦
        (thrown AbortReason.lock_on_shrinking, q, record txn { state = TransactionState.aborted })
    | _ ↦
        if any (is_of txn.txn_id) q.request_queue
        then repeat_is q txn (table_id tab_fd)
        else request_is q txn (table_id tab_fd)
  ]
