-- ===== src/Storage.antt =====
-- Persistent storage (src/storage).
mod Tests
pub mod BlockStore
pub mod Heights
pub mod Rollback
