-- ===== src/Plugin.antt =====
-- The plugin interfaces and the authority chain: crates/doggy-dns-plugin/src.
pub mod Outcome
pub mod Chain
pub mod Resolver
