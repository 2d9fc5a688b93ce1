-- ===== src/Itr/Dag.antt =====
-- The order in which pkg/itr/dag runs the nodes of a task graph.
pub mod Resolver
pub mod Degrees
pub mod Waves
pub mod Ordering
pub mod Blocking
pub mod Replan
pub mod Plan
pub mod Executor
pub mod Planner
pub mod Router
