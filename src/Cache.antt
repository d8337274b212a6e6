-- ===== src/Cache.antt =====
-- src/static-cache.ts: the bounded in-memory cache of static responses.
pub mod Store
pub mod Directives
pub mod Admission
pub mod Keys
pub mod Freshness
pub mod Accounts
pub mod Bounds
pub mod Steps
pub mod Reads
