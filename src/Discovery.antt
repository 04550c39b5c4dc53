-- ===== src/Discovery.antt =====
-- The Kubernetes discovery of the gateway (gateway/internal/discovery/discovery.go).
pub mod Endpoints
pub mod Gates
pub mod Sync
pub mod Laws
pub mod Publish
pub mod Fresh
