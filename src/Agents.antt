-- ===== src/Agents.antt =====
-- The agents of an investigation: the tools they may call, and the evidence they must cite.
pub mod Citations
pub mod Tools
