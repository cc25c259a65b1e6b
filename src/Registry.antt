-- ===== src/Registry.antt =====
-- The registry of data sources (internal/connectors/manager.go), with the jobs that
-- internal/orchestrator/multi_orchestrator.go creates on them.
pub mod Sources
pub mod Links
mod Tests
