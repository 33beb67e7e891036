-- ===== src/Transaction.antt =====
-- src/transaction: transactions and their locks.
pub mod Defs
pub mod LockManager
pub mod Manager
