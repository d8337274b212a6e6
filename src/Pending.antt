-- ===== src/Pending.antt =====
-- The interactions that wait for an answer, as src/client/pending-source.ts shows them to the overlay.
pub mod View
pub mod Source
pub mod Fence
