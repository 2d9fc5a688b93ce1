-- ===== src/Security/Bus.antt =====
-- The secure bus: pkg/security/securebus/bus.go and audit.go, over the commands of
-- pkg/itr/commands.go.
pub mod Types
pub mod Secrets
pub mod Dispatch
pub mod Audit
pub mod Cleared
