-- ===== src/Lsn.antt =====
-- Positions in PostgreSQL's write-ahead log: internal/connectors/postgresql/checkpoint.go and
-- lsn_manager.go.
pub mod Hex
pub mod Position
pub mod Orders
pub mod RoundTrip
pub mod Store
mod Codec
mod Tests
