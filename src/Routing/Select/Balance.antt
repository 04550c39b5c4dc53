-- ===== src/Routing/Select/Balance.antt =====
-- Smooth weighted round robin: the scores of `weightedBackendLocked` stay bounded and no backend
-- starves (gateway/internal/routing/router.go).
pub mod Rounds
pub mod Bounds
pub mod Runs
