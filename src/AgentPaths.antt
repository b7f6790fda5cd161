-- ===== src/AgentPaths.antt =====
-- internal/agenthttp/validate.go: the checks of the agent, which runs as root and does not trust the
-- panel: names, paths that it may serve or remove, backup files, SQL literals.
pub mod Words
pub mod Sites
pub mod Backups
pub mod Sql
pub mod Inside
pub mod Resolved
mod Tests
