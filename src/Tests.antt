-- ===== src/Tests.antt =====
-- Runs at concrete inputs, and the theorems at inputs that meet their conditions.
mod Bounded
mod Budget
mod Cache
mod Compress
mod Dag
mod React
mod Replan
mod Retry
mod Rope
mod Security
mod Skills
mod Tools
mod Engine
mod Extract
mod Executor
mod Ids
mod Planner
