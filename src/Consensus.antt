-- ===== src/Consensus.antt =====
-- modules/consensus: the consensus engines.
pub mod Raft
pub mod Pow
pub mod Simple
pub mod Service
