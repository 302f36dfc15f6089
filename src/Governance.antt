-- ===== src/Governance.antt =====
-- The governance of strategies and models: src/atp/governance.
pub mod Registry
pub mod Decay
pub mod Versioning
