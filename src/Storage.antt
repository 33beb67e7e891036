-- ===== src/Storage.antt =====
-- The storage layer, src/storage: page identities, the disk, and the buffer pool over them.
pub mod Disk
pub mod BufferPool
