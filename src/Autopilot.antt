-- ===== src/Autopilot.antt =====
-- The development autopilot of src/atp/autopilot.
pub mod Policy
pub mod Orchestrator
pub mod Rounds
pub mod Vetted
