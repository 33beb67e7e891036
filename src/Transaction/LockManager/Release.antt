-- ===== src/Transaction/LockManager/Release.antt =====
-- What `unlock` of src/transaction/concurrency/lock_manager.cpp does to the queue before it grants
-- the lock anew: the request goes, and the mode of the group is computed again.
use grmdb.Base.{
  List, [], ◌∷◌, Bool, true, false, ◌&&◌, not, Option, none, some, if◌then◌else◌, any, remove_if,
  holds,
}
use grmdb.Base.Int.{ℤ, ℤ_discrete}
use grmdb.Transaction.Defs.{invalid_txn_id}
use grmdb.Transaction.LockManager.{
  LockMode, GroupMode, LockRequest, LockRequestQueue, is_of, inserts,
}
use grmdb.Transaction.LockManager.Exclusive.{is_gap}

abbrev pub is_table_x : GroupMode → Bool
is_table_x GroupMode.tab_x = true
is_table_x _ = false

abbrev pub is_record_x : GroupMode → Bool
is_record_x GroupMode.x = true
is_record_x _ = false

-- Keys of the transaction go with a table lock only if the group holds gaps or all of the table.
abbrev pub drops_keys : GroupMode → Bool
drops_keys GroupMode.gap = true
drops_keys GroupMode.tab_x = true
drops_keys _ = false

-- What a granted request makes of the mode found so far, in a table's queue and in a record's.
abbrev pub join_table : GroupMode → LockMode → GroupMode
join_table g LockMode.exclusive = GroupMode.tab_x
join_table GroupMode.tab_x LockMode.intension_exclusive = GroupMode.tab_x
join_table GroupMode.gap LockMode.intension_exclusive = GroupMode.gap
join_table g LockMode.intension_exclusive = GroupMode.ix
join_table GroupMode.no_lock LockMode.intension_shared = GroupMode.is
join_table g mode = g

abbrev pub join_record : GroupMode → LockMode → GroupMode
join_record g LockMode.exclusive = GroupMode.x
join_record GroupMode.no_lock LockMode.shared = GroupMode.s
join_record g mode = g

module _ {M : Type 0} where
  -- The turn of the loop for one request.
  unfoldable pub table_step : GroupMode → LockRequest M → GroupMode
  table_step g req =
      let g' =
        if is_gap req.lock_mode && (not (is_table_x g) && any (λ a. not a.conflicted) req.gaps)
        then GroupMode.gap
        else g in
      if req.granted then join_table g' req.lock_mode else g'

  unfoldable pub table_group : GroupMode → List (LockRequest M) → GroupMode
  unfolding table_step
  table_group g [] = g
  table_group g (req ∷ reqs) = table_group (table_step g req) reqs

  unfoldable pub record_group : GroupMode → List (LockRequest M) → GroupMode
  record_group g [] = g
  record_group g (req ∷ reqs) =
      record_group (if req.granted then join_record g req.lock_mode else g) reqs

  -- `erase(req_it)`
  unfoldable pub erase_request : ℤ → List (LockRequest M) → List (LockRequest M)
  erase_request txn_id [] = []
  erase_request txn_id (req ∷ reqs) =
      let rest = erase_request txn_id reqs in if is_of txn_id req then reqs else req ∷ rest

  -- The queue of a table, and whether the transaction had a request in it, before `grant_lock` is
  -- called on it. The latch of the queue is commented out in `unlock`, which here is one step.
  unfoldable pub release_table : LockRequestQueue M → ℤ → Bool × LockRequestQueue M
  unfolding erase_request table_group
  release_table q txn_id =
      let reqs = erase_request txn_id q.request_queue in
      if any (is_of txn_id) q.request_queue
      then (
        true,
        record {
          request_queue = reqs;
          upgrading = if holds (ℤ_discrete q.upgrading txn_id) then invalid_txn_id else q.upgrading;
          group_mode = table_group GroupMode.no_lock reqs;
          insert_keys =
              if drops_keys q.group_mode
              then remove_if (inserts txn_id) q.insert_keys
              else q.insert_keys;
        },
      )
      else (false, q)

  -- The queue of a record, and that of its table, which may be missing.
  unfoldable pub release_record :
      LockRequestQueue M
      → Option (LockRequestQueue M)
      → ℤ
      → Bool × LockRequestQueue M × Option (LockRequestQueue M)
  unfolding erase_request record_group
  release_record q queue_table txn_id =
      let reqs = erase_request txn_id q.request_queue in
      let keyless : Option (LockRequestQueue M) = elim queue_table [
        | none ↦ none
        | some t ↦ some (record t { insert_keys = remove_if (inserts txn_id) t.insert_keys })
      ] in
      if any (is_of txn_id) q.request_queue
      then (
        true,
        record q {
          request_queue = reqs;
          upgrading = if holds (ℤ_discrete q.upgrading txn_id) then invalid_txn_id else q.upgrading;
          group_mode = record_group GroupMode.no_lock reqs;
        },
        if is_record_x q.group_mode then keyless else queue_table,
      )
      else (false, q, queue_table)
