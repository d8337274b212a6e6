-- ===== src/Relay.antt =====
-- The relay of src/proxy.ts: from an admitted request to the answer of the backend.
pub mod Prompt
pub mod Prepare
pub mod Cached
pub mod Exchange
pub mod Start
pub mod Limits
pub mod Window
pub mod Captures
pub mod Slots
pub mod Stored
pub mod Connections
pub mod Leases
pub mod Tracked
