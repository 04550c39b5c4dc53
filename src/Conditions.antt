-- ===== src/Conditions.antt =====
-- Status conditions (operator/internal/status/conditions.go).
pub mod Defs
pub mod Laws
