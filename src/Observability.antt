-- ===== src/Observability.antt =====
-- Telemetry: crates/doggy-dns-observability.
pub mod Tables
pub mod Profiles
pub mod Auth
pub mod Endpoint
pub mod Resource
