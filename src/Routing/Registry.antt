-- ===== src/Routing/Registry.antt =====
-- `MemoryRegistry` and its operations (gateway/internal/routing/router.go).
pub mod Defs
pub mod Weighted
pub mod Ops
