-- ===== src/Scheduler/Cache.antt =====
-- The planner of node-local caches (operator/internal/scheduler/planner.go).
pub mod Types
pub mod Reserve
pub mod Rank
pub mod Defs
pub mod Reserved
pub mod Order
pub mod Ranking
pub mod Inversion
pub mod Laws
pub mod Best
