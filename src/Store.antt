-- ===== src/Store.antt =====
-- backend/internal/store: the tables of traffic history, as the SQL statements change and read them.
pub mod Traffic
pub mod Ips
pub mod Nodes
pub mod Subscriptions
mod Tests
