-- ===== src/Tests/Locks.antt =====
-- Runs of the lock manager: two transactions at one table.
use grmdb.Base.{suc, length, remove_if, ℕ_discrete, ℕ, ◌≡◌, ◌≢◌, refl, [], ◌∷◌, true, false, any}
use grmdb.Base.Int.{pos, negsuc, ℤ_discrete}
use grmdb.Transaction.Defs.{Transaction, TransactionState}
use grmdb.Transaction.LockManager.{
  LockRequestQueue, LockMode, GroupMode, returned, is_of, wait_die, is_other_hold, lock_is_on_table,
}
use grmdb.Transaction.LockManager.Intention.{lock_ix_on_table}
use grmdb.Transaction.LockManager.WaitDie.{IsWaitOrDie, wait_die-IsWaitOrDie}
use grmdb.Transaction.LockManager.Release.{is_table_x, release_table}
use grmdb.Transaction.LockManager.Unlocked.{holds_x, release_table_keeps_others}
use grmdb.Defs.{Rid}
use grmdb.Transaction.LockManager.Respects.{intention_locks_respect_exclusive}

abbrev old : Transaction
old = record { state = TransactionState.growing; txn_id = pos 1; lock_set = [] }

abbrev young : Transaction
young = record { state = TransactionState.growing; txn_id = pos 2; lock_set = [] }

-- An index's metadata is a number.
abbrev empty_queue : LockRequestQueue ℕ
empty_queue = record {
  request_queue = [];
  upgrading = negsuc 0;
  group_mode = GroupMode.no_lock;
  insert_keys = [];
}

-- Transaction 2 holds the table exclusively.
abbrev held_queue : LockRequestQueue ℕ
held_queue = record empty_queue {
  request_queue =
      record { txn_id = pos 2; lock_mode = LockMode.exclusive; granted = true; gaps = [] } ∷ [];
  group_mode = GroupMode.tab_x;
}

wait_die-IsWaitOrDie_example : IsWaitOrDie held_queue old (wait_die held_queue (pos 1) old)
wait_die-IsWaitOrDie_example = wait_die-IsWaitOrDie held_queue old

-- Transaction 2 alone holds an intention shared lock, and asks for more.
abbrev shared_queue : LockRequestQueue ℕ
shared_queue = record empty_queue {
  request_queue =
      record { txn_id = pos 2; lock_mode = LockMode.intension_shared; granted = true; gaps = [] }
      ∷ [];
  group_mode = GroupMode.is;
}

intention_locks_respect_exclusive_example :
    ((lock_is_on_table held_queue old (pos 3)).0 ≢ returned true)
    × ((lock_ix_on_table held_queue old (pos 3)).0 ≢ returned true)
unfolding is_other_hold any ℤ_discrete ℕ_discrete
intention_locks_respect_exclusive_example =
    intention_locks_respect_exclusive held_queue old (pos 3) refl refl

abbrev rid : Rid
rid = record { page_no = pos 1; slot_no = pos 0 }

-- Transaction 2 has written the record.
abbrev written_queue : LockRequestQueue ℕ
written_queue = record held_queue { group_mode = GroupMode.x }

-- Both transactions are in the queue, and 2 holds the table exclusively.
abbrev shared_by_two : LockRequestQueue ℕ
shared_by_two = record held_queue {
  request_queue =
      record { txn_id = pos 1; lock_mode = LockMode.intension_shared; granted = false; gaps = [] }
      ∷ record { txn_id = pos 2; lock_mode = LockMode.exclusive; granted = true; gaps = [] }
      ∷ [];
}

release_table_keeps_others_example :
    (is_table_x (release_table shared_by_two (pos 1)).1.group_mode
      ≡ any holds_x (release_table shared_by_two (pos 1)).1.request_queue)
    × (is_other_hold (release_table shared_by_two (pos 1)).1 (pos 1)
        ≡ is_other_hold shared_by_two (pos 1))
    × (length shared_by_two.request_queue
        ≡ suc (length (release_table shared_by_two (pos 1)).1.request_queue))
    × (remove_if (is_of (pos 1)) (release_table shared_by_two (pos 1)).1.request_queue
        ≡ remove_if (is_of (pos 1)) shared_by_two.request_queue)
unfolding any ℤ_discrete ℕ_discrete
release_table_keeps_others_example = release_table_keeps_others shared_by_two (pos 1) refl
