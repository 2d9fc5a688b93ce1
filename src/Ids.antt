-- ===== src/Ids.antt =====
-- The identifiers of pkg/ids.
pub mod Uuid
