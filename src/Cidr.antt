-- ===== src/Cidr.antt =====
-- src/cidr.ts: the allowlist of remote addresses, and src/config-validation.ts, which checks it.
pub mod Numbers
pub mod Parse
pub mod Match
pub mod Masks
pub mod Config
pub mod Allowlist
