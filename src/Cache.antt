-- ===== src/Cache.antt =====
-- The userspace side of the XDP cache: crates/doggy-dns-xdp/src.
pub mod Hash
pub mod Entry
pub mod Middleware
pub mod Pin
