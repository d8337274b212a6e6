-- ===== src/Sessions.antt =====
-- src/sessions.ts: the per-device session store. `Record` and the modules after it hold the
-- store's state and operations, the later ones what is proved of them.
pub mod Cookie
pub mod Label
pub mod Record
pub mod Login
pub mod Access
pub mod Track
pub mod Admin
pub mod Disk
pub mod Steps
pub mod Find
pub mod Invariant
pub mod Preservation
pub mod Auth
pub mod Admission
pub mod Tracking
pub mod Capacity
pub mod Directory
