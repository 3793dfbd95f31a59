-- ===== src/Handler.antt =====
-- The request handler: crates/doggy-dns-core/src/handler.rs.
pub mod Answer
pub mod Rotation
pub mod Flow
