-- ===== src/Routing.antt =====
-- The gateway's model registry (gateway/internal/routing/router.go).
pub mod Types
pub mod Normalize
pub mod Registry
pub mod ModelPath
pub mod Select
pub mod Invariant
