-- ===== src/Paper.antt =====
-- The paper canary of src/atp/store/base.py: its runs, orders, fills and accounts.
pub mod Runs
pub mod Orders
pub mod Money
pub mod Config
pub mod Tables
pub mod Risk
pub mod Fill
pub mod Intents
pub mod Cancel
pub mod Commit
pub mod Stages
pub mod Admission
pub mod Keys
pub mod Opening
pub mod Books
pub mod Retry
pub mod Course
pub mod Replay
pub mod Refinement
pub mod Guards
pub mod Limits
pub mod Losses
