-- ===== src/Gate.antt =====
-- The gate in front of the backend: the paths of src/pages.ts and the request handlers of src/proxy.ts.
pub mod Paths
pub mod State
pub mod Login
pub mod Routes
pub mod Admission
pub mod Own
pub mod SignOut
