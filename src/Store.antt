-- ===== src/Store.antt =====
-- management/store.go: the document behind one file, its transactional update, and the atomic
-- write of the file.
pub mod Disk
pub mod Atomic
pub mod Updates
pub mod Durability
