-- ===== src/Mongo.antt =====
-- The checkpoint file of the MongoDB connector: internal/connectors/mongodb/checkpoint.go.
pub mod Store
pub mod Saved
mod Tests
