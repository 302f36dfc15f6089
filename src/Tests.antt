-- ===== src/Tests.antt =====
-- The theorems at concrete rows, calls and fills.
mod Runtime
mod Money
mod Orders
mod Governance
mod Paper
mod Fill
mod Opening
mod Intents
mod FixedPoint
mod Trading
mod Execution
mod Autopilot
