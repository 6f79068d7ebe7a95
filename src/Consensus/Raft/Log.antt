-- ===== src/Consensus/Raft/Log.antt =====
-- raft_engine.go: the log: its shape, replication, compaction and delivery.
pub mod Shape
pub mod Kept
pub mod Replication
pub mod Compaction
pub mod Delivery
pub mod Truncation
