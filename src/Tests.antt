-- ===== src/Tests.antt =====
-- Concrete runs, evidence and ledgers, on which the theorems are applied.
mod Runs
mod Evidence
mod Waits
mod Repairs
mod Admissions
mod Restarts
mod Dispatches
