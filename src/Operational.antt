-- ===== src/Operational.antt =====
-- src/operational/runtime-projection.ts, and the projection of the admission registry that it reads:
--   Operational.Projection   `project` and `composeOperationalRuntimeProjection`
--   Operational.Verdict      `restartVerdict`, and the maintenance hold and the manual lane
--   Operational.Restart      what a verdict to restart proves of the registry
pub mod Projection
pub mod Verdict
pub mod Restart
pub mod Consistency
