-- ===== src/Tests.antt =====
-- Examples of the theorems at concrete inputs.
mod Raft
mod Apps
mod Runtime
mod Node
