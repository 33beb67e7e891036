-- ===== src/Record.antt =====
-- The record layer, src/record.
pub mod Bitmap
pub mod Page
pub mod File
