-- ===== src/Transaction/LockManager/Compatible.antt =====
-- What a granted table lock excludes. The calls are those of
-- src/transaction/concurrency/lock_manager.cpp.
use grmdb.Base.{◌⊎◌, ◌≡◌, List, Bool, true, false, ◌&&◌, not, any, ite}
use grmdb.Base.Int.{ℤ}
use grmdb.Transaction.Defs.{Transaction}
use grmdb.Transaction.LockManager.{
  LockRequest, LockRequestQueue, GroupMode, Outcome, returned, is_of,
}

pub either_way {ℓ κ} :
    {Q : Type 0} {R : Type ℓ} (P : R → Type κ) (d : Dec Q) {x y : R} → P x → P y → P (ite d x y)
either_way P (yes p) first second = first
either_way P (no p) first second = second

module _ {M : Type 0} where
  -- Another transaction's request is granted.
  abbrev pub granted_to_other : ℤ → LockRequest M → Bool
  granted_to_other txn_id req = req.granted && not (is_of txn_id req)

  abbrev pub is_shared : LockRequestQueue M → ℤ → Bool
  is_shared q txn_id = any (granted_to_other txn_id) q.request_queue

  -- What a granted exclusive lock says of the queue: no request of another transaction is granted
  -- in it, unless it had no mode; then the granted requests of others, if any, are those that there
  -- were.
  abbrev pub Excludes : LockRequestQueue M → Transaction → LockRequestQueue M → Type 0
  Excludes q txn q' =
      (q'.group_mode ≡ GroupMode.tab_x)
      × ((is_shared q' txn.txn_id ≡ false)
          ⊎ ((q.group_mode ≡ GroupMode.no_lock)
              × (is_shared q' txn.txn_id ≡ is_shared q txn.txn_id)))

  abbrev IsAlone :
      LockRequestQueue M → Transaction → Outcome × LockRequestQueue M × Transaction → Type 0
  IsAlone before txn (outcome, q', txn') = outcome ≡ returned true → Excludes before txn q'

  abbrev pub with_mode : LockRequestQueue M → List (LockRequest M) → GroupMode → LockRequestQueue M
  with_mode q reqs mode = record q { request_queue = reqs; group_mode = mode }
