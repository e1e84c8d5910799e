-- ===== src/Wait.antt =====
-- src/domain/wait.ts: waiting for a worker without a model. Observations of the worker are classified,
-- recorded in a durable ledger, and decide when the orchestrating model has to be woken.
pub mod Observation
pub mod Classify
pub mod Ledger
pub mod Advance
pub mod Delivery
pub mod Migration
pub mod Timeout
pub mod Wakes
pub mod Settled
pub mod Boundaries
pub mod Retention
