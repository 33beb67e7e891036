-- ===== src/System.antt =====
-- src/system: the description of the tables.
pub mod Meta
