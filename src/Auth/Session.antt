-- ===== src/Auth/Session.antt =====
-- backend/internal/auth/jwt.go over the tables of backend/internal/store/auth.go. Times are whole
-- unix seconds and the clock is an argument. The JWT library is the parameter `Jwt`.
pub mod Tables
pub mod Manager
pub mod Rows
pub mod Revoked
pub mod Lifecycle
pub mod Issued
pub mod Account
