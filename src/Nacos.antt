-- ===== src/Nacos.antt =====
-- The Nacos backend: crates/doggy-dns-nacos/src.
pub mod Backoff
pub mod Watcher
pub mod Mapping
pub mod Authority
