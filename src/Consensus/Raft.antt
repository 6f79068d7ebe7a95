-- ===== src/Consensus/Raft.antt =====
-- modules/consensus/raft_engine.go and raft_membership.go: the Raft engine. Each method runs under
-- the engine's mutex, so a method is a function from the state before to the state after. Indices
-- and terms start at 0 and only count upwards; they are natural numbers here, as in Types.
pub mod Types
pub mod Persist
pub mod Election
pub mod Append
pub mod Leader
pub mod Log
pub mod Votes
pub mod Elected
pub mod Recovery
pub mod Membership
pub mod History
pub mod Replicas
pub mod InStep
pub mod Replication
