-- ===== src/Proxy.antt =====
-- The reverse proxy of the gateway (gateway/internal/proxy/proxy.go).
pub mod Tracker
pub mod Limiter
pub mod Serve
pub mod Drain
pub mod Laws
