-- ===== src/Kernel.antt =====
-- The XDP fast path: xdp/doggy-dns-xdp-ebpf/src.
pub mod Memory
pub mod Word
pub mod Question
pub mod Reply
pub mod Headers
pub mod Program
mod Tests
