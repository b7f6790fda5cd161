-- ===== src/Auth.antt =====
-- Authentication and authorisation: internal/auth, the session store, the middleware of
-- internal/apihttp and its login limits.
pub mod Roles
pub mod Hierarchy
pub mod Limits
pub mod Windows
pub mod Failures
pub mod Replay
pub mod Sessions
pub mod Limit
pub mod Guard
pub mod Admission
pub mod Identity
pub mod Features
pub mod Tiers
pub mod Csrf
pub mod Forgery
pub mod Password
pub mod Login
pub mod Shown
pub mod Entry
pub mod Silence
mod Tests
mod GateTests
mod EntryTests
