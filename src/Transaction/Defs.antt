-- ===== src/Transaction/Defs.antt =====
-- src/transaction/txn_defs.h and the state of a Transaction (transaction.h) that the lock manager
-- reads and changes: its identity, its state and the locks that it has asked for.
use grmdb.Base.{List}
use grmdb.Base.Int.{ℤ, negsuc, ℤ_discrete}
use grmdb.Defs.{Rid, Rid_discrete}

pub data TransactionState : Type 0 where
  default : TransactionState
  growing : TransactionState
  shrinking : TransactionState
  committed : TransactionState
  aborted : TransactionState

pub data LockDataType : Type 0 where
  table : LockDataType
  record_lock : LockDataType

-- A table, or a record of a table.
pub data LockDataId : Type 0 where
  table_id : ℤ → LockDataId
  record_id : ℤ → Rid → LockDataId

unfoldable pub LockDataId_discrete : Discrete LockDataId
unfolding ℤ_discrete Rid_discrete
LockDataId_discrete = hlevel (ℤ_discrete, Rid_discrete)

pub data AbortReason : Type 0 where
  lock_on_shrinking : AbortReason
  upgrade_conflict : AbortReason
  deadlock_prevention : AbortReason
  constraint_violation : AbortReason

abbrev pub invalid_txn_id : ℤ
invalid_txn_id = negsuc 0

-- The set of locks is a list, in which a lock may stand twice.
pub record Transaction : Type 0 where
  pub state : TransactionState
  pub txn_id : ℤ
  pub lock_set : List LockDataId
