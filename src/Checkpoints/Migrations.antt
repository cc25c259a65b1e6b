-- ===== src/Checkpoints/Migrations.antt =====
-- MigrateFromLegacy of internal/connectors/checkpoint.go with the managers of the connectors.
use elasticrelay.Checkpoints.Postgres
