-- ===== src/Agent.antt =====
-- The agent's planner.
pub mod Plan
pub mod Shortlist
