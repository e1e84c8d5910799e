-- ===== src/Machine.antt =====
-- src/domain/state-machine.ts: the workflow state machine of a run.
--   Machine.Table       the transition table, and what it allows out of a state
--   Machine.Freshness   when a stored review or validation counts for the current HEAD and policy
--   Machine.Decisions   the human decisions that may move an interrupted run
--   Machine.Errors      the errors that a refused transition reports
--   Machine.Handoff     what a repair hands over to
--   Machine.Payload     what a transition may carry
--   Machine.Evidence    the rest of that: HEADs, results and reviews
--   Machine.Apply       `applyTransition`
-- The other children hold the theorems.
pub mod Table
pub mod Freshness
pub mod Decisions
pub mod Errors
pub mod Handoff
pub mod Payload
pub mod Evidence
pub mod Apply
pub mod Accepted
pub mod Snapshot
pub mod Graph
pub mod Reach
pub mod Binding
pub mod Approval
pub mod Create
pub mod Lifecycle
pub mod Parking
