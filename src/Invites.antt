-- ===== src/Invites.antt =====
-- src/invites.ts: one-time login codes.
pub mod Codes
pub mod SingleUse
pub mod Retry
