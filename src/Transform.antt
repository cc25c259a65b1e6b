-- ===== src/Transform.antt =====
-- The transformation of records: internal/transform.
pub mod Paths
pub mod Walks
pub mod Deletions
pub mod Mapper
pub mod Moves
pub mod Defaults
mod Tests
