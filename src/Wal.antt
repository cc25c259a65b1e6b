-- ===== src/Wal.antt =====
-- The decoder of PostgreSQL's logical replication: internal/connectors/postgresql/wal_parser.go.
pub mod Reader
pub mod Messages
pub mod Stream
pub mod Stability
pub mod Wholes
pub mod Chunks
pub mod Payloads
pub mod Updates
pub mod Places
pub mod Rows
mod Tests
