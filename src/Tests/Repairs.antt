-- ===== src/Tests/Repairs.antt =====
-- A repair that is admitted, and the binding of its attempt.
use tachiko_conductor.Prelude.{
  String, true, false, sym, ◌∙◌, arith, string_eq, ap, Option, none, some, ◌≡◌, ◌≢◌, refl, ok,
  Result, is_blank, trim,
}
use tachiko_conductor.Types.Names.{TaskShape, RepairFindingKind, ExecutionProfile}
use tachiko_conductor.Types.Evidence.{Target, ExecutorIdentity, ResolvedExecutionConfiguration}
use tachiko_conductor.Types.Repair.{
  RepairTaskShapeAuthority, RepairAdmissionSnapshot, RepairAttemptBinding,
}
use tachiko_conductor.Types.Run.{Run}
use tachiko_conductor.Machine.Create.{create_run}
use tachiko_conductor.Repair.Identity.{resolve_repair_predecessor, IdentityError}
use tachiko_conductor.Repair.Handoff.{
  bind_attempt, create_repair_attempt_binding, is_attempt_binding_compatible, starts_fresh,
  identity_generation,
}
use tachiko_conductor.Repair.Snapshot.{
  create_repair_admission_snapshot, is_repair_admission_snapshot, is_resolved_execution, taxonomy,
}
use tachiko_conductor.Repair.Laws.{create_snapshot-valid, create_binding-compatible}

abbrev execution : ResolvedExecutionConfiguration
execution = record {
  profile = ExecutionProfile.routine;
  revision = "profiles-1";
  executor = "codex-cli";
  model = none;
  reasoning_effort = none;
  timeout_ms = 600_000;
  sandbox_mode = none;
  approval_policy = none;
}

abbrev authority : RepairTaskShapeAuthority
authority = record { revision = "authority-1"; shape = TaskShape.bounded }

abbrev snapshot : RepairAdmissionSnapshot
snapshot = record {
  lead_disposition = none;
  packet_sha256 = none;
  budget_limit = none;
  authority_revision = "authority-1";
  task_shape = TaskShape.bounded;
  taxonomy_revision = taxonomy;
  finding = RepairFindingKind.review_blocking;
  head_sha = "0123456789abcdef";
  pull_request_number = 12;
  execution_profile = ExecutionProfile.routine;
  execution_revision = "profiles-1";
  execution = execution;
  admitted_at = "t1";
  attempt_binding = none;
}

created :
    create_repair_admission_snapshot authority RepairFindingKind.review_blocking "0123456789abcdef"
      12 execution "t1"
    ≡ ok snapshot
unfolding create_repair_admission_snapshot is_resolved_execution is_blank trim
created = refl

create_snapshot-valid_example : is_repair_admission_snapshot (λ _. true) snapshot ≡ true
create_snapshot-valid_example =
    create_snapshot-valid (λ _. true) authority RepairFindingKind.review_blocking "0123456789abcdef"
      12 execution "t1" created

-- The run's executor, which the attempt continues.
abbrev worker : ExecutorIdentity
worker = record {
  provider = "codex-app-server";
  session_id = "thread-1";
  generation = some "generation-1";
}

abbrev run : Run
run =
    record (create_run (Target.issue "nurockplayer" "tachiko-conductor" 47) "t0" "run-1" none none
      none) { executor = some worker }

abbrev binding : RepairAttemptBinding
binding = record {
  admission_index = 0;
  start_fix_history_index = 0;
  predecessor_executor = some worker;
  predecessor_session_id = none;
  fresh_executor = false;
  runtime_generation = "generation-1";
}

bound :
    (create_repair_attempt_binding run "codex-cli" "repair-1" ≡ ok binding)
    × (resolve_repair_predecessor run.executor run.agent_result ≡ ok (some worker))
unfolding create_repair_attempt_binding bind_attempt resolve_repair_predecessor starts_fresh
    create_run is_blank trim
bound = (refl, refl)

other_generation :
    (predecessor : Option ExecutorIdentity)
    → resolve_repair_predecessor run.executor run.agent_result ≡ ok predecessor
    → identity_generation predecessor ≢ some "repair-1"
other_generation predecessor h same =
    let known : ◌≡◌ {A = Result IdentityError (Option ExecutorIdentity)} (ok (some worker))
        (ok predecessor) =
      sym bound.1 ∙ h in
    let is_worker : predecessor ≡ some worker = cc in
    let equal : ◌≡◌ {A = Option String} (some "generation-1") (some "repair-1") =
      ap identity_generation (sym is_worker) ∙ same in
    let texts : ◌≡◌ {A = String} "generation-1" "repair-1" = cc in
    ground (arith, (string_eq.beq_iff "generation-1" "repair-1").1 texts)

create_binding-compatible_example : is_attempt_binding_compatible "codex-cli" binding ≡ true
create_binding-compatible_example =
    create_binding-compatible run "codex-cli" "repair-1" other_generation bound.0
