-- ===== src/Recovery.antt =====
-- Recovery runs (packages/recovery).
pub mod Status
pub mod Lifecycle
pub mod Store
pub mod PatchPolicy
