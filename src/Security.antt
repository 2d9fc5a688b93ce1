-- ===== src/Security.antt =====
-- The security layer: pkg/security and pkg/security/securebus.
pub mod Redact
pub mod Glob
pub mod Policy
pub mod Bus
pub mod Extract
