-- ===== src/Persistence.antt =====
-- persistence/: the in-memory store, part by part.
pub mod Blobs
pub mod Rows
pub mod Records
pub mod Store
