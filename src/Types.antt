-- ===== src/Types.antt =====
-- src/domain/types.ts: the closed vocabularies of a run. The records stand in the children:
-- `Types.Evidence` (results of agents, reviews and validations), `Types.Repair` (the records of
-- src/domain/repair-admission.ts) and `Types.Run` (transitions, their payloads, and the run).
pub mod Evidence
pub mod Repair
pub mod Run
pub mod Names
