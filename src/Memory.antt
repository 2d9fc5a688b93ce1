-- ===== src/Memory.antt =====
-- The compression of a conversation: pkg/memory/dag.
pub mod Budget
pub mod Compress
