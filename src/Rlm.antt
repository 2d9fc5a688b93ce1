-- ===== src/Rlm.antt =====
-- The recursive language model engine: pkg/rlm.
pub mod Rope
pub mod Strategy
pub mod Fanout
pub mod Engine
