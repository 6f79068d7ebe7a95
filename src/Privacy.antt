-- ===== src/Privacy.antt =====
-- modules/privacy and core/execution/router.go: jurisdiction-bound payloads and their execution.
pub mod Vault
pub mod Fetcher
pub mod Telemetry
pub mod Router
