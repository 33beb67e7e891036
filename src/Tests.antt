-- ===== src/Tests.antt =====
-- Runs of the modelled code on concrete inputs, to which the theorems are applied.
mod Records
mod Pool
mod Log
mod Locks
mod Index
mod Transactions
mod Execution
mod Changes
