-- ===== src/Sandbox.antt =====
-- Sandbox executions (packages/sandbox).
pub mod Logs
pub mod Orchestrator
