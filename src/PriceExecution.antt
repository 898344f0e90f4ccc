-- ===== src/PriceExecution.antt =====
-- src/modules/orders/price_execution.py: the decision on a bargained price, and the jobs that
-- carry a price change out.
pub mod Decision
pub mod Service
pub mod Jobs
pub mod Execute
pub mod Once
pub mod Flows
pub mod Calls
mod Tests
