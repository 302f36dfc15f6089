-- ===== src/Trading.antt =====
-- The path of an order: the risk engine, the broker, the execution engine and the scheduler of
-- src/atp/risk, src/atp/brokers and src/atp/execution.
pub mod Broker
pub mod Risk
pub mod PaperBroker
pub mod Execution
pub mod Reconciler
pub mod Scheduler
