-- ===== src/Compress.antt =====
-- src/proxy-compress.ts: whether and how a response is compressed.
pub mod Negotiate
pub mod Body
pub mod Rewrite
pub mod Selected
pub mod Present
pub mod Once
