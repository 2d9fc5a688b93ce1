-- ===== src/Skills.antt =====
-- The graph of skills of pkg/skills.
pub mod Graph
pub mod Links
pub mod Build
pub mod Search
