-- ===== src/Masking.antt =====
-- Masking of fields: internal/transform/masking/masking.go.
pub mod Strategies
pub mod Engine
pub mod Hiding
mod Tests
