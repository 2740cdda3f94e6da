-- ===== src/Api.antt =====
-- backend/internal/api: the parts of the HTTP API that keep state of their own.
pub mod Idempotency
pub mod Nodes
pub mod Subscription
