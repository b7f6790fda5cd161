-- ===== src/Units.antt =====
-- The systemd units of site applications: internal/agenthttp/app_process.go.
pub mod File
pub mod Quote
pub mod Lines
pub mod Tasks
pub mod Written
mod Tests
