-- ===== src/Node.antt =====
-- core/runtime/runtime.go: the node: its services, and the loop that turns transactions into blocks.
pub mod Services
pub mod Loop
pub mod Boot
