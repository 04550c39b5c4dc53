-- ===== src/Auth.antt =====
-- Bearer-token authentication (gateway/internal/auth/auth.go).
pub mod Defs
pub mod Laws
