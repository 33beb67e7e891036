-- ===== src/Transaction/LockManager/Unlocked.antt =====
-- What holds of a queue that a transaction has left. The call is `unlock` of
-- src/transaction/concurrency/lock_manager.cpp.
use grmdb.Base.{
  suc, length, remove_if, ◌≡◌, refl, List, [], ◌∷◌, Bool, true, false, ◌&&◌, not, Option, arith,
  if◌then◌else◌, any,
}
use grmdb.Base.Int.{ℤ}
use grmdb.Transaction.LockManager.{
  LockMode, GroupMode, LockRequest, LockRequestQueue, is_of, is_exclusive, is_other_hold,
}
use grmdb.Transaction.LockManager.Release.{
  is_table_x, is_record_x, join_table, join_record, table_step, table_group, record_group,
  erase_request, release_table, release_record,
}

join_table_x :
    (g : GroupMode) (mode : LockMode)
    → is_table_x (join_table g mode) ≡ (if is_table_x g then true else is_exclusive mode)
join_table_x GroupMode.no_lock LockMode.exclusive = refl
join_table_x GroupMode.s LockMode.exclusive = refl
join_table_x GroupMode.x LockMode.exclusive = refl
join_table_x GroupMode.gap LockMode.exclusive = refl
join_table_x GroupMode.tab_x LockMode.exclusive = refl
join_table_x GroupMode.is LockMode.exclusive = refl
join_table_x GroupMode.ix LockMode.exclusive = refl
join_table_x GroupMode.no_lock LockMode.intension_exclusive = refl
join_table_x GroupMode.s LockMode.intension_exclusive = refl
join_table_x GroupMode.x LockMode.intension_exclusive = refl
join_table_x GroupMode.gap LockMode.intension_exclusive = refl
join_table_x GroupMode.tab_x LockMode.intension_exclusive = refl
join_table_x GroupMode.is LockMode.intension_exclusive = refl
join_table_x GroupMode.ix LockMode.intension_exclusive = refl
join_table_x GroupMode.no_lock LockMode.intension_shared = refl
join_table_x GroupMode.s LockMode.intension_shared = refl
join_table_x GroupMode.x LockMode.intension_shared = refl
join_table_x GroupMode.gap LockMode.intension_shared = refl
join_table_x GroupMode.tab_x LockMode.intension_shared = refl
join_table_x GroupMode.is LockMode.intension_shared = refl
join_table_x GroupMode.ix LockMode.intension_shared = refl
join_table_x GroupMode.no_lock LockMode.shared = refl
join_table_x GroupMode.s LockMode.shared = refl
join_table_x GroupMode.x LockMode.shared = refl
join_table_x GroupMode.gap LockMode.shared = refl
join_table_x GroupMode.tab_x LockMode.shared = refl
join_table_x GroupMode.is LockMode.shared = refl
join_table_x GroupMode.ix LockMode.shared = refl
join_table_x GroupMode.no_lock LockMode.gap = refl
join_table_x GroupMode.s LockMode.gap = refl
join_table_x GroupMode.x LockMode.gap = refl
join_table_x GroupMode.gap LockMode.gap = refl
join_table_x GroupMode.tab_x LockMode.gap = refl
join_table_x GroupMode.is LockMode.gap = refl
join_table_x GroupMode.ix LockMode.gap = refl

join_record_x :
    (g : GroupMode) (mode : LockMode)
    → is_record_x (join_record g mode) ≡ (if is_record_x g then true else is_exclusive mode)
join_record_x GroupMode.no_lock LockMode.exclusive = refl
join_record_x GroupMode.s LockMode.exclusive = refl
join_record_x GroupMode.x LockMode.exclusive = refl
join_record_x GroupMode.gap LockMode.exclusive = refl
join_record_x GroupMode.tab_x LockMode.exclusive = refl
join_record_x GroupMode.is LockMode.exclusive = refl
join_record_x GroupMode.ix LockMode.exclusive = refl
join_record_x GroupMode.no_lock LockMode.intension_exclusive = refl
join_record_x GroupMode.s LockMode.intension_exclusive = refl
join_record_x GroupMode.x LockMode.intension_exclusive = refl
join_record_x GroupMode.gap LockMode.intension_exclusive = refl
join_record_x GroupMode.tab_x LockMode.intension_exclusive = refl
join_record_x GroupMode.is LockMode.intension_exclusive = refl
join_record_x GroupMode.ix LockMode.intension_exclusive = refl
join_record_x GroupMode.no_lock LockMode.intension_shared = refl
join_record_x GroupMode.s LockMode.intension_shared = refl
join_record_x GroupMode.x LockMode.intension_shared = refl
join_record_x GroupMode.gap LockMode.intension_shared = refl
join_record_x GroupMode.tab_x LockMode.intension_shared = refl
join_record_x GroupMode.is LockMode.intension_shared = refl
join_record_x GroupMode.ix LockMode.intension_shared = refl
join_record_x GroupMode.no_lock LockMode.shared = refl
join_record_x GroupMode.s LockMode.shared = refl
join_record_x GroupMode.x LockMode.shared = refl
join_record_x GroupMode.gap LockMode.shared = refl
join_record_x GroupMode.tab_x LockMode.shared = refl
join_record_x GroupMode.is LockMode.shared = refl
join_record_x GroupMode.ix LockMode.shared = refl
join_record_x GroupMode.no_lock LockMode.gap = refl
join_record_x GroupMode.s LockMode.gap = refl
join_record_x GroupMode.x LockMode.gap = refl
join_record_x GroupMode.gap LockMode.gap = refl
join_record_x GroupMode.tab_x LockMode.gap = refl
join_record_x GroupMode.is LockMode.gap = refl
join_record_x GroupMode.ix LockMode.gap = refl

module _ {M : Type 0} where
  -- An exclusive request that is granted.
  abbrev pub holds_x : LockRequest M → Bool
  holds_x req = req.granted && is_exclusive req.lock_mode

  table_step_x :
      (g : GroupMode) (req : LockRequest M)
      → is_table_x (table_step g req) ≡ (if is_table_x g then true else holds_x req)
  unfolding table_step
  table_step_x g req =
      ground (arith, join_table_x g req.lock_mode, join_table_x GroupMode.gap req.lock_mode)

  -- The mode found is that of an exclusive table lock exactly when it was so before, or a granted
  -- exclusive request is met.
  table_group_x :
      (g : GroupMode) (reqs : List (LockRequest M))
      → is_table_x (table_group g reqs) ≡ (if is_table_x g then true else any holds_x reqs)
  unfolding table_group any
  table_group_x g [] = ground arith
  table_group_x g (req ∷ reqs) =
      ground (arith, table_step_x g req, table_group_x (table_step g req) reqs)

  record_group_x :
      (g : GroupMode) (reqs : List (LockRequest M))
      → is_record_x (record_group g reqs) ≡ (if is_record_x g then true else any holds_x reqs)
  unfolding record_group any
  record_group_x g [] = ground arith
  record_group_x g (req ∷ reqs) = ground (
    arith,
    join_record_x g req.lock_mode,
    record_group_x (if req.granted then join_record g req.lock_mode else g) reqs,
  )

  -- What the request of one transaction does not pass stays as it was.
  any-erase_request :
      (p : LockRequest M → Bool) (txn_id : ℤ) (reqs : List (LockRequest M))
      → ((req : LockRequest M) → is_of txn_id req ≡ true → p req ≡ false)
      → any p (erase_request txn_id reqs) ≡ any p reqs
  unfolding any erase_request
  any-erase_request p txn_id [] own = refl
  any-erase_request p txn_id (req ∷ reqs) own =
      ground (arith, own req, any-erase_request p txn_id reqs own)

  other_hold-erase_request :
      (q : LockRequestQueue M) (txn_id : ℤ)
      → is_other_hold (record q { request_queue = erase_request txn_id q.request_queue }) txn_id
        ≡ is_other_hold q txn_id
  unfolding is_other_hold
  other_hold-erase_request q txn_id =
      any-erase_request
        (λ req. req.granted && (not (is_of txn_id req) && is_exclusive req.lock_mode)) txn_id
        q.request_queue (λ req own. ground arith)

  others-erase_request :
      (txn_id : ℤ) (reqs : List (LockRequest M))
      → remove_if (is_of txn_id) (erase_request txn_id reqs) ≡ remove_if (is_of txn_id) reqs
  unfolding erase_request remove_if
  others-erase_request txn_id [] = refl
  others-erase_request txn_id (req ∷ reqs) = ground (arith, others-erase_request txn_id reqs)

  length-erase_request :
      (txn_id : ℤ) (reqs : List (LockRequest M))
      → any (is_of txn_id) reqs ≡ true
      → length reqs ≡ suc (length (erase_request txn_id reqs))
  unfolding erase_request any
  length-erase_request txn_id [] found = absurd (cc)
  length-erase_request txn_id (req ∷ reqs) found = ground (arith, length-erase_request txn_id reqs)

  -- After a transaction with a request in a table's queue has left it, the queue has the mode of an
  -- exclusive table lock exactly when an exclusive request is granted in it, so that another
  -- transaction holds the table exclusively exactly when it did before; one request of that
  -- transaction has gone, and the requests of the others are as they were, in their order.
  pub release_table_keeps_others :
      (q : LockRequestQueue M) (txn_id : ℤ)
      → any (is_of txn_id) q.request_queue ≡ true
      → (is_table_x (release_table q txn_id).1.group_mode
          ≡ any holds_x (release_table q txn_id).1.request_queue)
        × (is_other_hold (release_table q txn_id).1 txn_id ≡ is_other_hold q txn_id)
        × (length q.request_queue ≡ suc (length (release_table q txn_id).1.request_queue))
        × (remove_if (is_of txn_id) (release_table q txn_id).1.request_queue
            ≡ remove_if (is_of txn_id) q.request_queue)
  unfolding release_table is_other_hold
  release_table_keeps_others q txn_id found = rw found (
    table_group_x GroupMode.no_lock _,
    other_hold-erase_request q txn_id,
    length-erase_request txn_id q.request_queue found,
    others-erase_request txn_id q.request_queue,
  )

  -- After a transaction with a request in a record's queue has left it, the queue has the mode of an
  -- exclusive lock exactly when an exclusive request is granted in it, and another transaction holds
  -- the record exclusively exactly when it did before.
  pub release_record_keeps_exclusive :
      (q : LockRequestQueue M) (queue_table : Option (LockRequestQueue M)) (txn_id : ℤ)
      → any (is_of txn_id) q.request_queue ≡ true
      → (is_record_x (release_record q queue_table txn_id).1.group_mode
          ≡ any holds_x (release_record q queue_table txn_id).1.request_queue)
        × (is_other_hold (release_record q queue_table txn_id).1 txn_id ≡ is_other_hold q txn_id)
  unfolding release_record is_other_hold
  release_record_keeps_exclusive q queue_table txn_id found =
      rw found (record_group_x GroupMode.no_lock _, other_hold-erase_request q txn_id)
