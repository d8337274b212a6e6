-- ===== src/Tracker.antt =====
-- src/proxy.ts, `createLoginTracker`: the per-address limit on failed logins and upgrades.
pub mod Buckets
pub mod Window
pub mod Prune
