-- ===== src/Commands.antt =====
-- The commands that the agent runs: internal/executor/executor.go.
pub mod Run
pub mod Unprivileged
mod Tests
