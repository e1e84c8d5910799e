-- ===== src/Machine/Handoff.antt =====
-- src/domain/state-machine.ts: `validateRepairHandoff`.
use tachiko_conductor.Prelude.{
  String, string_eq, option_eq, Bool, true, false, not, ◌||◌, ◌==◌, Option, none, some, List, any,
  ok, err, is_blank, if◌then◌else◌,
}
use text.Mathlib.Text.{find?}
use tachiko_conductor.Types.Names.{AgentExitStatus, exit_eq, TransitionType}
use tachiko_conductor.Types.Evidence.{AgentResult, ExecutorIdentity}
use tachiko_conductor.Types.Repair.{RepairExecutorHandoff, RepairHandoffRecord}
use tachiko_conductor.Types.Run.{Run}
use tachiko_conductor.Repair.Identity.{identity_eq, is_repair_executor_identity}
use tachiko_conductor.Repair.Handoff.{worker_router, is_repair_handoff_compatible}
use tachiko_conductor.Repair.Active.{ActiveRepair, active_repair_admission}
use tachiko_conductor.Machine.Table.{is_present}
use tachiko_conductor.Machine.Errors.{InvalidTransitionCode, Checked}

-- `/EXECUTOR_PROVIDER_|EXECUTOR_RECONSTRUCTION_FAILED/.test(diagnostic)`
abbrev names_executor_failure : String → Bool
names_executor_failure d =
    is_present (find? d "EXECUTOR_PROVIDER_")
    || is_present (find? d "EXECUTOR_RECONSTRUCTION_FAILED")

diagnostics_fail : Option (List String) → Bool
diagnostics_fail none = false
diagnostics_fail (some ds) = any names_executor_failure ds

-- What a successful result without a session, or a result with an executor, hands over to.
sessionless_outcome : AgentResult → Option RepairExecutorHandoff
unfolding diagnostics_fail
sessionless_outcome r =
    if not (r.exit_status == AgentExitStatus.success)
      || is_present r.executor
      || is_present r.session_id
      || diagnostics_fail r.diagnostics
    then none
    else some RepairExecutorHandoff.sessionless

other_session : Option String → String → Bool
other_session none id = false
other_session (some s) id = not (s == id)

executor_outcome : Option ExecutorIdentity → Option String → Option RepairExecutorHandoff
unfolding other_session
executor_outcome none session = none
executor_outcome (some i) session =
    if not (is_repair_executor_identity i)
      || is_blank i.session_id
      || other_session session i.session_id
    then none
    else some (RepairExecutorHandoff.executor i)

abbrev previous_outcome :
    (continued : Bool) → Option RepairHandoffRecord → Option RepairExecutorHandoff
previous_outcome false handoff = none
previous_outcome true none = none
previous_outcome true (some h) = some h.outcome

-- The first handoff needs an attempt without one, and a continuation an attempt with one.
abbrev out_of_turn : (continued : Bool) → Option RepairHandoffRecord → Bool
out_of_turn true handoff = not (is_present handoff)
out_of_turn false handoff = is_present handoff

outcome_of : ActiveRepair → AgentResult → Option RepairExecutorHandoff
unfolding sessionless_outcome executor_outcome
outcome_of active r =
    if active.snapshot.execution.executor == worker_router
    then sessionless_outcome r
    else executor_outcome r.executor r.session_id

record_if_compatible :
    ActiveRepair → (continued : Bool) → Option RepairExecutorHandoff → Option RepairHandoffRecord
record_if_compatible active continued none = none
record_if_compatible active continued (some outcome) =
    if is_repair_handoff_compatible active.snapshot.execution.executor active.binding outcome
      (previous_outcome continued active.handoff)
    then some (record {
      admission_history_index = active.admission_history_index;
      start_fix_history_index = active.start_fix_history_index;
      outcome = outcome;
    })
    else none

handoff_record : Option ActiveRepair → AgentResult → (continued : Bool) → Option RepairHandoffRecord
unfolding outcome_of record_if_compatible
handoff_record none r continued = none
handoff_record (some active) r continued =
    if out_of_turn continued active.handoff
    then none
    else record_if_compatible active continued (outcome_of active r)

or_hold : Run → Option RepairHandoffRecord → Checked RepairHandoffRecord
or_hold run (some h) = ok h
or_hold run none = err (record {
  code = InvalidTransitionCode.invalid_repair_handoff;
  from_state = run.state;
  transition = TransitionType.repair_executor_handoff;
})

unfoldable pub validate_repair_handoff :
    (String → Bool) → Run → AgentResult → (continued : Bool) → Checked RepairHandoffRecord
unfolding handoff_record or_hold
validate_repair_handoff valid_reference run r continued =
    or_hold run (handoff_record (active_repair_admission valid_reference run) r continued)
