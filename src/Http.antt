-- ===== src/Http.antt =====
-- backend/internal/httpx: the part that keeps server-side requests away from internal addresses.
pub mod Ssrf
