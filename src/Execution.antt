-- ===== src/Execution.antt =====
-- src/execution: conditions, and the executors of a query that hand their records on one after
-- another.
pub mod Value
pub mod Executor
pub mod Join
pub mod SeqScan
pub mod Values
pub mod Change
pub mod Delete
pub mod Update
pub mod Projection
