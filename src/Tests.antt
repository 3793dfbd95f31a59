-- ===== src/Tests.antt =====
-- Runs of the userspace parts on concrete inputs.
pub mod Nacos
pub mod Serving
pub mod Settings
pub mod Telemetry
