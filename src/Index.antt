-- ===== src/Index.antt =====
-- The index layer, src/index: keys and the nodes of B+ trees.
pub mod Search
pub mod Key
pub mod Node
pub mod Tree
