-- ===== src/Telemetry.antt =====
-- The part of src/domain/telemetry.ts that a transition touches: the wait event that a run records
-- when it starts to wait for a dependency.
use tachiko_conductor.Prelude.{
  String, string_eq, nat_eq, Bool, false, ◌&&◌, ◌==◌, Option, none, some, List, [], ◌∷◌, ◌++◌, map,
  any, length, if◌then◌else◌,
}
use tachiko_conductor.Types.Names.{WorkflowState, state_eq}
use tachiko_conductor.Types.Run.{
  EventId, TelemetryEvent, EfficiencyThresholds, Coverage, RunTelemetry, Run,
}

-- `revision` is the value of RUN_TELEMETRY_THRESHOLD_REVISION.
abbrev pub default_efficiency_thresholds : EfficiencyThresholds
default_efficiency_thresholds = record {
  revision = "run-efficiency-thresholds-v1";
  repeated_unchanged_state_wakeups = 3;
  reviewer_starts_at_same_head = 2;
  large_tool_result_bytes = 1_000_000;
  repeated_configuration_preflight_failures = 2;
  reviewer_restarts = 2;
}

unfoldable pub create_run_telemetry : RunTelemetry
create_run_telemetry = record {
  coverage = Coverage.complete;
  thresholds = default_efficiency_thresholds;
  events = [];
}

abbrev pub event_id : TelemetryEvent → EventId
event_id (TelemetryEvent.wait_status_wakeup id at state head_sha) = id
event_id (TelemetryEvent.other id body) = id

abbrev pub same_event_id : EventId → EventId → Bool
same_event_id (EventId.wait r n s) (EventId.wait r' n' s') = r == r' && n == n' && s == s'
same_event_id (EventId.other a) (EventId.other b) = a == b
same_event_id _ _ = false

-- `run.telemetry ?? { ...createRunTelemetry(), coverage: 'partial' }`
existing_telemetry : Option RunTelemetry → RunTelemetry
unfolding create_run_telemetry
existing_telemetry none = record create_run_telemetry { coverage = Coverage.partial }
existing_telemetry (some t) = t

-- The events whose identity is new, to the telemetry and among themselves.
additions : List EventId → List TelemetryEvent → List TelemetryEvent
additions seen [] = []
additions seen (e ∷ es) =
    let fresh = additions (event_id e ∷ seen) es in
    let stale = additions seen es in
    if any (same_event_id (event_id e)) seen then stale else e ∷ fresh

extend_telemetry : Option RunTelemetry → List TelemetryEvent → RunTelemetry
unfolding additions existing_telemetry
extend_telemetry old events =
    let existing = existing_telemetry old in
    record existing { events = existing.events ++ additions (map event_id existing.events) events }

-- Where nothing is added to telemetry that exists, the source returns the run itself, which is then
-- the run with its telemetry given anew.
unfoldable pub append_run_telemetry_events : Run → List TelemetryEvent → Run
unfolding extend_telemetry
append_run_telemetry_events run events = record run {
  telemetry = some (extend_telemetry run.telemetry events);
}

unfoldable pub record_wait_telemetry : Run → String → Run
unfolding append_run_telemetry_events
record_wait_telemetry run at =
    if run.state == WorkflowState.waiting_dependency
    then append_run_telemetry_events run (
        TelemetryEvent.wait_status_wakeup (EventId.wait run.id (length run.history) run.state) at
          run.state run.head_sha
        ∷ [])
    else run
