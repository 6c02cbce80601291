-- ===== src/Investigation.antt =====
-- Investigations (packages/ai).
pub mod Status
pub mod Lifecycle
pub mod Plan
pub mod Store
