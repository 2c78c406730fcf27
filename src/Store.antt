-- ===== src/Store.antt =====
-- src/store: files that are replaced whole, the shelf and the upload sessions.
pub mod Atomic
pub mod Alloc
pub mod Shelf
pub mod ShelfFile
pub mod Sessions
pub mod SessionsFile
pub mod Config
