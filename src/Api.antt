-- ===== src/Api.antt =====
-- The custom resources of the operator (operator/api/v1alpha1).
pub mod Spec
pub mod Status
pub mod Runtime
