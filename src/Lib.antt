-- ===== src/Lib.antt =====
-- Tachiko Conductor drives one issue at a time through implementation, validation, review and a final
-- gate. A run is a durable record, and every change of it is a transition of one state machine. This
-- library models that core: the state machine with everything that its guards read, the ledger by
-- which the program waits for a worker without waking a model, the host-wide registry that admits lanes
-- to work, the projection from which a restart is judged, and the claims by which work is dispatched.
--
-- The parts, and the files that model them:
--   Types        src/domain/types.ts, the records of src/domain/repair-admission.ts, and the
--                configuration of src/execution-profiles.ts that a run carries
--   Telemetry    the part of src/domain/telemetry.ts that a transition touches
--   Validation   src/domain/validation.ts: whether evidence agrees with itself
--   HostedPolicy src/validation/hosted-policy.ts: what a policy makes of observed checks
--   Repair       src/domain/repair-admission.ts: Identity and Handoff (who continues a repair),
--                Snapshot (the receipt that admits one), Active (the receipt in force), Laws
--   Native       what the state machine asks of the native review and lead, a parameter
--   Machine      src/domain/state-machine.ts, src/domain/decisions.ts and src/domain/run.ts. The
--                definitions: Table (TRANSITION_TABLE), Freshness, Decisions, Handoff
--                (validateRepairHandoff), Payload and Evidence (the two halves of assertPayload),
--                Apply (applyTransition), Create (createRun). The proofs: Accepted and Snapshot (what
--                an accepted transition is), Graph (the README's table), Reach, Binding, Approval,
--                Lifecycle, Parking
--   Wait         src/domain/wait.ts: Observation, Classify (classifyWaitChange, decideWaitWake),
--                Ledger, Advance (advanceWaitLedger), Delivery, Migration (migrateWaitLedger),
--                and Timeout (recordWake of src/workflow/wait-observation.ts); the proofs in Wakes,
--                Settled, Boundaries and Retention
--   Admission    src/mission-admission/registry.ts. The definitions: Types, Platform (canonicalRepository,
--                canonicalPath), Evidence (canonicalizeMissionEvidence, overlaps, mergeEvidence), State
--                (validateLane, validateState), Transact (transact, readState), Admit and Candidate
--                (the two halves of admit), Operations and Fences (what the other methods do in their
--                transactions), Api (the methods). The proofs: Fencing, Rules, Steps and Admitting (no
--                operation takes a lane back), History (sequences of operations), Fenced, Granted,
--                Revoked, Valid, Capacity, Writers, Overlaps and Exclusion
--   Operational  src/operational/runtime-projection.ts, and project of the registry: Projection,
--                Verdict; the proofs in Restart and Consistency
--   Dispatch     src/dispatch/queue.ts (Queue), src/dispatch/continuous.ts (Continuous) and claimedRun
--                of src/dispatch/runner.ts (Recovery); the proofs about claims in Taken and Claims
--   Tests        concrete runs, evidence, ledgers, registries and claims on which the theorems are applied
--
-- How the parts interact: applyTransition asks the native review and lead, looks the transition up in
-- the table, checks its payload against the run (with the tests of Validation and Repair), and returns
-- a new run, in which a wait is recorded by Telemetry. The wait ledger is separate: it is advanced by
-- one observation at a time, and only tells when to look at the run again. A method of the registry
-- tests its arguments, and goes on to one transaction, which reads the file, runs the operation, tests
-- the registry that it makes and publishes it. The projection of Operational reads the registry's, and
-- the runs. Dispatch claims work before a run is driven.
--
-- How the code is represented. A function that throws returns a Result; an error keeps its code, the
-- state and the transition, and leaves its message out. `undefined` and `null` are `none`. A number is a
-- natural number, tested against the largest safe integer 2^53 - 1 where the source tests it. A
-- validator of an `unknown` value takes a typed value, and the tests that the type settles are left
-- out. Texts that the code composes for identifiers of wait events and for the details of evidence are
-- kept as the values that they are composed of. A fresh UUID and the current time are arguments. SHA-256
-- digests are a parameter, of which one theorem asks that states of different status have different
-- digests. The ledgers of the native review and lead, the merge attempt and the implementation authority
-- are carried as serialized text. A transaction of the registry runs alone, as under its lock, on the
-- registry that the file holds; its callbacks are arguments that succeed or throw. What the runtime
-- answers about paths, letter case and digests is a record of functions. One definition needs fuel, the
-- climb of canonicalPath to an existing ancestor: the path's length and one is enough, since each parent
-- is shorter. All other recursion is on lists, texts and the bound on cycles.
--
-- Not modelled: the drivers around the core, which are input and output (agents, reviewers, GitHub,
-- workspaces, the run store, the command line, the workflow that calls transitions), and of the
-- modelled files the projection of efficiency from telemetry, the shape tests of
-- persisted wait ledgers, the parsing of execution profiles, the lock and the bytes of the registry
-- file, the grammar of the dispatch queue and the JSON of its claims, and the unbounded driver. The
-- final gate of src/workflow, which alone makes a run ready to merge, is no transition and is not
-- modelled.
pub mod Prelude
pub mod Types
pub mod Telemetry
pub mod Validation
pub mod HostedPolicy
pub mod Native
pub mod Admission
pub mod Operational
pub mod Dispatch
pub mod Repair
pub mod Machine
pub mod Wait
pub mod Tests
