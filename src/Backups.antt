-- ===== src/Backups.antt =====
-- internal/store/backups.go: the table of backups.
pub mod Table
pub mod Exclusive
pub mod Retention
pub mod Expiry
pub mod Statements
mod Tests
