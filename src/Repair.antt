-- ===== src/Repair.antt =====
-- src/domain/repair-admission.ts: who may repair what, and as which executor.
--   Repair.Identity   the identity of an executor, and the one that a run's records agree on
--   Repair.Handoff    which executor a repair may be handed to
--   Repair.Snapshot   admission receipts, and when one is well formed
--   Repair.Active     the receipt that authorizes the repair in progress
-- The other children hold the theorems.
pub mod Identity
pub mod Handoff
pub mod Snapshot
pub mod Active
pub mod Laws
