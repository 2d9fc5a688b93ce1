-- ===== src/Itr.antt =====
-- The commands and task graphs of pkg/itr.
pub mod Dag
