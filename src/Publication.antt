-- ===== src/Publication.antt =====
-- Publication of approved recoveries (packages/publication, and their stores in packages/database).
pub mod Status
pub mod Lifecycle
pub mod Types
pub mod Checks
pub mod StoredReadiness
pub mod MergeClosure
pub mod Patch
pub mod Bundle
pub mod Failures
pub mod Store
pub mod Replay
