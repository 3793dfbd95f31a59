-- ===== src/Config.antt =====
-- The configuration: crates/doggy-dns-basic and the part of crates/doggy-dns-control that shows it.
pub mod Toml
pub mod Env
pub mod Redact
pub mod Schema
pub mod Validate
