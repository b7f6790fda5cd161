-- ===== src/Jobs.antt =====
-- Background jobs: internal/jobmodel, the job table of internal/store/jobs.go and the worker of
-- internal/jobs/worker.go.
pub mod Model
pub mod Table
pub mod Backoff
pub mod Outside
pub mod Success
pub mod Worker
pub mod Claim
pub mod Requeue
pub mod Invariant
pub mod States
pub mod Failure
pub mod Outage
mod Tests
mod OutageTests
