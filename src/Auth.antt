-- ===== src/Auth.antt =====
-- backend/internal/auth with the account tables of backend/internal/store/auth.go: the login rate
-- limiter, and sessions whose tokens can be revoked.
pub mod Limiter
pub mod Session
mod Tests
