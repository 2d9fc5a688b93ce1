-- ===== src/Fantasy.antt =====
-- The agent runtime of internal/fantasy.
pub mod React
pub mod Retry
pub mod Tools
