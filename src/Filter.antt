-- ===== src/Filter.antt =====
-- Filtering of records: internal/transform/filter/filter.go.
pub mod Values
pub mod Rules
pub mod Checks
mod Tests
