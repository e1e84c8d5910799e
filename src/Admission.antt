-- ===== src/Admission.antt =====
-- src/mission-admission/registry.ts: the host-wide registry of the lanes that may work on a mission.
--   Admission.Types      lanes, evidence, requests, tokens and the registry
pub mod Types
pub mod Platform
pub mod Evidence
pub mod State
pub mod Transact
pub mod Admit
pub mod Candidate
pub mod Operations
pub mod Fences
pub mod Api
pub mod Fencing
pub mod Rules
pub mod Steps
pub mod Admitting
pub mod History
pub mod Fenced
pub mod Valid
pub mod Writers
pub mod Overlaps
pub mod Exclusion
pub mod Capacity
pub mod Granted
pub mod Revoked
