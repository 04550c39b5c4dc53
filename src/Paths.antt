-- ===== src/Paths.antt =====
-- Paths below the root of the caches (operator/internal/paths/paths.go).
pub mod Defs
pub mod Laws
