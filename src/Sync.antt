-- ===== src/Sync.antt =====
-- The synchronization jobs: internal/orchestrator/multi_orchestrator.go.
pub mod Job
pub mod Flush
pub mod History
pub mod Accounts
pub mod Initial
pub mod Decision
pub mod Retry
pub mod Orphans
pub mod Snapshot
mod Tests
