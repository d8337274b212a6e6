-- ===== src/Tunnel.antt =====
-- The one-click tunnel: src/tunnel.ts.
pub mod Archive
pub mod Binary
pub mod Url
pub mod Manager
pub mod Safety
pub mod Verified
