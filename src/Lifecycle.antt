-- ===== src/Lifecycle.antt =====
-- The lifecycle of a ModelDeployment (operator/controllers/modeldeployment_lifecycle_controller.go,
-- modeldeployment_lifecycle_transitions.go).
pub mod Effective
pub mod Rollout
pub mod Replicas
pub mod Status
pub mod Deactivate
pub mod Target
