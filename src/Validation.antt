-- ===== src/Validation.antt =====
-- The validators of the custom resources (operator/internal/validation/validation.go).
pub mod Scheduling
pub mod Deployment
pub mod Resources
pub mod Reconcile
pub mod Caches
