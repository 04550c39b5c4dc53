-- ===== src/Routing/Invariant.antt =====
-- What holds of a `MemoryRegistry` after any operations (gateway/internal/routing/router.go).
pub mod Candidates
pub mod Routes
pub mod Reach
pub mod Stale
pub mod Publish
pub mod Reserved
