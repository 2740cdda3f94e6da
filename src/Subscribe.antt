-- ===== src/Subscribe.antt =====
-- backend/internal/subscribe: stored outbounds turned into client profiles, and Clash profiles into
-- outbounds.
pub mod Value
pub mod Fields
pub mod Parse
pub mod Unique
pub mod Outbound
pub mod Import
pub mod Export
pub mod Names
pub mod Inversion
pub mod Kept
pub mod View
pub mod Imported
pub mod Addresses
pub mod Exported
pub mod RoundTrip
pub mod Generated
pub mod Uri
pub mod Shared
pub mod Fetch
mod Tests
