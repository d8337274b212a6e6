-- ===== src/Control.antt =====
-- src/control-routes.ts: the control API, over the runtime of src/index.ts.
pub mod Routes
pub mod Snapshot
pub mod Handle
pub mod Guarded
pub mod Concealed
