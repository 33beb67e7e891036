-- ===== src/Recovery.antt =====
-- The recovery layer, src/recovery.
pub mod Bytes
pub mod LogType
pub mod LogManager
pub mod LogRecord
pub mod LogRecovery
