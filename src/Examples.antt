-- ===== src/Examples.antt =====
-- Concrete requests, records and stores on which the theorems are applied.
pub mod Tasks
pub mod Approvals
pub mod Risks
pub mod Engines
pub mod Queues
pub mod Limits
pub mod Workers
pub mod Reconcilers
