-- ===== src/Security/Policy.antt =====
-- The policy engine of the secure bus: pkg/security/securebus/policy.go, and the capabilities of
-- pkg/tools/base.go. The standard library's url and filepath functions are parameters.
pub mod Engine
pub mod Network
pub mod Files
