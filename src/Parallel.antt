-- ===== src/Parallel.antt =====
-- Parallel snapshots: internal/parallel. A table is cut into chunks, which workers read and index.
pub mod Task
pub mod Chunks
pub mod Cover
pub mod Worker
pub mod Batches
pub mod Retries
pub mod Progress
mod Tests
