-- ===== src/Machine/Create.antt =====
-- src/domain/run.ts: `createRun`. The identity and the time, which the source draws where they are not
-- given, are arguments.
use tachiko_conductor.Prelude.{String, Option, none, some, []}
use tachiko_conductor.Types.Names.{WorkflowState}
use tachiko_conductor.Types.Evidence.{Target, ResolvedExecutionConfiguration}
use tachiko_conductor.Types.Repair.{RepairTaskShapeAuthority}
use tachiko_conductor.Types.Run.{Run}
use tachiko_conductor.Telemetry.{create_run_telemetry}

unfoldable pub create_run :
    Target
    → (now id : String) → Option ResolvedExecutionConfiguration
    → (dispatch_claim_id : Option String) → Option RepairTaskShapeAuthority
    → Run
create_run target now id execution claim authority = record {
  id = id;
  target = target;
  state = WorkflowState.ready;
  created_at = now;
  updated_at = now;
  dispatch_claim_id = claim;
  history = [];
  execution = execution;
  repair_task_shape_authority = authority;
  implementation_authority = none;
  repair_admissions = none;
  interrupted_from = none;
  interrupt = none;
  agent_result = none;
  executor = none;
  bootstrap = none;
  pull_request = none;
  review_result = none;
  native_review = none;
  native_lead = none;
  merge_attempt = none;
  validation_result = none;
  head_sha = none;
  telemetry = some create_run_telemetry;
}
