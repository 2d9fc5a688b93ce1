-- ===== src/Cache.antt =====
-- The cache of pkg/cache/lru.go: its data and index of tags, and its methods.
pub mod Entries
pub mod Lru
pub mod Bounded
