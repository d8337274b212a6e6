-- ===== src/Runtime.antt =====
-- src/index.ts: the host runtime, whose operations run one at a time behind its write gate.
pub mod State
pub mod Actions
pub mod Commands
pub mod Blocked
pub mod Rotation
pub mod Masked
