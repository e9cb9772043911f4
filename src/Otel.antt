-- ===== src/Otel.antt =====
-- The package otel: its configuration (otel/config/config.go), the provider that is built of it
-- (otel/adapters/otel/otel_adapter.go) and the start from the environment
-- (otel/initialize/telemetry.go).
pub mod Config
pub mod Provider
mod Tests
