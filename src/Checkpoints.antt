-- ===== src/Checkpoints.antt =====
-- The checkpoint managers of the connectors: internal/connectors/checkpoint.go, and checkpoint.go in
-- internal/connectors/postgresql and internal/connectors/mysql. A position of Go's type interface{}
-- has one constructor for each dynamic type that a manager looks for.
pub mod Legacy
pub mod Postgres
pub mod Binlog
pub mod Mysql
pub mod Migrations
mod Tests
