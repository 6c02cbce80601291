-- ===== src/Incident.antt =====
-- Incidents and their event log (packages/incidents).
pub mod Status
pub mod Lifecycle
pub mod Json
pub mod Chain
