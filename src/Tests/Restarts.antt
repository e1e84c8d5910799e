-- ===== src/Tests/Restarts.antt =====
-- A registry whose only captain is released, a run that has merged, and the projection of the two that
-- allows a restart.
use tachiko_conductor.Prelude.{
  String, string_eq, nat_eq, option_eq, true, false, none, some, [], ◌∷◌, ◌≡◌, refl, inl, trim,
  is_blank,
}
use tachiko_conductor.Types.Names.{WorkflowState}
use tachiko_conductor.Types.Evidence.{Target}
use tachiko_conductor.Types.Run.{Run}
use tachiko_conductor.Machine.Create.{create_run}
use tachiko_conductor.Admission.Types.{
  MissionAdmissionRole, MissionAdmissionStatus, LaneRecord, RegistryState,
}
use tachiko_conductor.Admission.State.{writer_missions, high_autonomy_missions}
use tachiko_conductor.Operational.Projection.{
  Comparison, Supervisor, ProjectionInput, project, summarize, is_uncertain,
  compose_operational_runtime_projection, adverse_parked_lane, is_live, has_durable_lane,
}
use tachiko_conductor.Operational.Verdict.{
  RestartVerdict, restart_verdict, is_operational_runtime_projection, is_consistent,
  is_active_manual,
}
use tachiko_conductor.Operational.Restart.{IsStill, restart_verdict-IsStill}
use tachiko_conductor.Operational.Consistency.{is_consistent-compose}
use tachiko_conductor.Tests.Admissions.{captain, ports}

-- A run that has merged, its captain that is released, and a reviewer that is active.
abbrev merged_run : Run
merged_run = record (create_run (Target.issue "o" "r" 7) "now" "run-1" none none none) {
  state = WorkflowState.merged;
}

abbrev released_captain : LaneRecord
released_captain = record captain {
  evidence = record captain.evidence { run = some "run-1" };
  status = MissionAdmissionStatus.released;
  token = none;
  generation = 2;
}

abbrev reviewer : LaneRecord
reviewer = record captain {
  lane_id = "review:1";
  mission_id = "mission-r";
  role = MissionAdmissionRole.read_only_review;
}

abbrev released_registry : RegistryState
released_registry = record {
  revision = 2;
  config = ports.config;
  lanes = released_captain ∷ reviewer ∷ [];
  last_transition = none;
}

abbrev locale_compare : String → String → Comparison
locale_compare left right = Comparison.equal

abbrev input : ProjectionInput
input = record {
  admission = project locale_compare released_registry;
  runs = merged_run ∷ [];
  prior = none;
  now = "now";
  stage = "idle";
  supervisor = Supervisor.parked;
  event_wake_eligible = false;
  next_poll_at = none;
  maintenance_hold = some (record { active = true; reason = none });
  manual_lane = none;
  durable_lane_ids = "run:1" ∷ [];
  reentry_evidence_complete = true;
}

safe :
    restart_verdict (λ _. true) (some (compose_operational_runtime_projection input))
    ≡ RestartVerdict.safe_to_restart
unfolding restart_verdict is_operational_runtime_projection is_consistent
    compose_operational_runtime_projection summarize is_uncertain project writer_missions
    high_autonomy_missions is_blank trim adverse_parked_lane is_active_manual create_run is_live
    has_durable_lane
safe = refl

restart_verdict-IsStill_example : IsStill released_registry input
restart_verdict-IsStill_example =
    restart_verdict-IsStill (λ _. true) locale_compare released_registry input refl (inl safe)

is_consistent-compose_example : is_consistent (compose_operational_runtime_projection input) ≡ true
is_consistent-compose_example = is_consistent-compose input
