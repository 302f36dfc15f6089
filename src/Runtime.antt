-- ===== src/Runtime.antt =====
-- The durable runtime of src/atp/runtime and the part of src/atp/store/base.py that it rests on.
pub mod Status
pub mod Durable
pub mod Lifecycle
pub mod Gate
pub mod Positions
pub mod OrderStore
pub mod Orders
