-- ===== src/Storage.antt =====
-- modules/storage/memory.go: the in-memory storage backend.
pub mod Memory
pub mod Pebble
