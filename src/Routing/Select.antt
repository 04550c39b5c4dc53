-- ===== src/Routing/Select.antt =====
-- How a request path finds its route and its backend (gateway/internal/routing/router.go).
pub mod Prefixes
pub mod Serving
pub mod Balance
