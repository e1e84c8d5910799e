-- ===== src/Machine/Payload.antt =====
-- src/domain/state-machine.ts: the first half of `assertPayload`, in its order.
use tachiko_conductor.Prelude.{
  ℕ, String, string_eq, nat_eq, option_eq, Bool, true, false, not, ◌&&◌, ◌||◌, ◌==◌, Option, none,
  some, any, leb, length, filter_by, ok, err, ◌>>=◌, ◌>>◌,
}
use tachiko_conductor.Types.Names.{
  WorkflowState, state_eq, TransitionType, type_eq, RecordType, status_eq, shape_eq, finding_eq,
}
use tachiko_conductor.Types.Evidence.{
  ImplementationPullRequestIdentity, AgentResult, ExecutorIdentity,
}
use tachiko_conductor.Types.Repair.{
  RepairTaskShapeAuthority, RepairAttemptBinding, RepairAdmissionSnapshot,
}
use tachiko_conductor.Types.Run.{
  NativeLeadStopReference, TransitionRecord, TransitionInput, NativeReview, Run,
}
use tachiko_conductor.Native.{Native}
use tachiko_conductor.Repair.Identity.{
  identity_eq, same_repair_executor_identity, result_session, resolve_repair_predecessor,
}
use tachiko_conductor.Repair.Snapshot.{is_repair_admission_snapshot}
use tachiko_conductor.Repair.Handoff.{admissions_length}
use tachiko_conductor.Repair.Active.{review_requests_changes, expected_finding}
use tachiko_conductor.Machine.Table.{is_present, requires_agent_result, requires_review_result}
use tachiko_conductor.Machine.Errors.{InvalidTransitionCode, Checked, refuse}
use tachiko_conductor.Machine.Handoff.{validate_repair_handoff}

abbrev pub is_validation_outcome : TransitionType → Bool
is_validation_outcome TransitionType.validation_passed = true
is_validation_outcome TransitionType.validation_failed = true
is_validation_outcome _ = false

-- The payloads that a transition cannot do without.
unfoldable pub assert_required : Run → TransitionInput → Checked Unit
assert_required run input = do
  refuse run input (requires_agent_result input.type && not (is_present input.agent_result))
      InvalidTransitionCode.missing_payload
  refuse run input (requires_review_result input.type && not (is_present input.review_result))
      InvalidTransitionCode.missing_payload
  refuse run input (is_validation_outcome input.type && not (is_present input.validation_result))
      InvalidTransitionCode.missing_payload
  refuse run input
      (input.type == TransitionType.bootstrap_prepared && not (is_present input.bootstrap))
      InvalidTransitionCode.missing_payload

stop_recorded : String → TransitionRecord → Bool
stop_recorded id h = recorded h.native_lead_stop
  where
    recorded : Option NativeLeadStopReference → Bool
    recorded none = false
    recorded (some r) = r.request_id == id

same_stop : Option NativeLeadStopReference → NativeLeadStopReference → Bool
same_stop none ref = false
same_stop (some a) ref =
    a.request_id == ref.request_id && a.receipt_id == ref.receipt_id && a.digest == ref.digest

stop_refused : Native → Run → TransitionInput → Option NativeLeadStopReference → Bool
unfolding stop_recorded same_stop
stop_refused native run input none = false
stop_refused native run input (some ref) =
    not (input.type == TransitionType.escalate)
    || not (run.state == WorkflowState.changes_requested)
    || not (same_stop (native.accepted_stop run) ref)
    || any (stop_recorded ref.request_id) run.history

abbrev is_start_fix_record : RecordType → Bool
is_start_fix_record (RecordType.transition TransitionType.start_fix) = true
is_start_fix_record _ = false

abbrev pub start_fixes : Run → ℕ
start_fixes run = length (filter_by (λ h. is_start_fix_record h.type) run.history)

admission_budget : Option RepairAdmissionSnapshot → Option ℕ
admission_budget none = none
admission_budget (some a) = a.budget_limit

admission_lead : Option RepairAdmissionSnapshot → Option String
admission_lead none = none
admission_lead (some a) = a.lead_disposition

abbrev pub repair_limit : Option NativeReview → Option ℕ
repair_limit none = none
repair_limit (some r) = r.repair_limit

budget_refused : Run → Option RepairAdmissionSnapshot → Option ℕ → Bool
unfolding admission_budget
budget_refused run admission none = false
budget_refused run admission (some limit) =
    not (admission_budget admission == some limit) || leb limit (start_fixes run)

-- The lead's stop, the shared repair budget, and the lead's consumption.
unfoldable pub assert_lead : Native → Run → TransitionInput → Checked Unit
unfolding stop_refused budget_refused admission_lead
assert_lead native run input = do
  refuse run input (stop_refused native run input input.native_lead_stop)
      InvalidTransitionCode.unexpected_payload
  refuse run input
      (is_present input.repair_admission && not (input.type == TransitionType.start_fix))
      InvalidTransitionCode.unexpected_payload
  refuse run input
      (input.type == TransitionType.start_fix
        && budget_refused run input.repair_admission (repair_limit run.native_review))
      InvalidTransitionCode.invalid_repair_admission
  refuse run input
      (input.type == TransitionType.start_fix
        && (is_present run.native_review || is_present run.native_lead)
        && review_requests_changes run.review_result
        && not (native.consumption_valid run (admission_lead input.repair_admission)))
      InvalidTransitionCode.invalid_repair_admission

predecessor_coherent : Run → Option ExecutorIdentity → Bool
predecessor_coherent run bound = elim (resolve_repair_predecessor run.executor run.agent_result) [
  | ok predecessor ↦ same_repair_executor_identity bound predecessor
  | err e ↦ false
]

-- The binding of the receipt against the run as it stands before the start of the repair.
binding_current : Run → Option RepairAttemptBinding → Bool
unfolding predecessor_coherent
binding_current run none = false
binding_current run (some b) =
    b.admission_index == admissions_length run.repair_admissions
    && b.start_fix_history_index == length run.history
    && predecessor_coherent run b.predecessor_executor
    && b.predecessor_session_id == result_session run.agent_result

admission_current :
    Native
    → Run
    → RepairAdmissionSnapshot
    → Option RepairTaskShapeAuthority
    → Option String
    → Option ImplementationPullRequestIdentity
    → Bool
unfolding binding_current
admission_current native run a (some authority) (some head_sha) (some pr) =
    run.state == WorkflowState.changes_requested
    && is_repair_admission_snapshot native.valid_reference a
    && binding_current run a.attempt_binding
    && a.authority_revision == authority.revision
    && a.task_shape == authority.shape
    && a.head_sha == head_sha
    && a.pull_request_number == pr.number
    && a.finding == expected_finding run
admission_current native run a _ _ _ = false

admission_refused : Native → Run → Option RepairAdmissionSnapshot → Bool
unfolding admission_current
admission_refused native run none = is_present run.repair_task_shape_authority
admission_refused native run (some a) =
    not
      (admission_current native run a run.repair_task_shape_authority run.head_sha run.pull_request)

unfoldable pub assert_admission : Native → Run → TransitionInput → Checked Unit
unfolding admission_refused
assert_admission native run input =
    refuse run input
      (input.type == TransitionType.start_fix
        && admission_refused native run input.repair_admission)
      InvalidTransitionCode.invalid_repair_admission

abbrev pub is_handoff : TransitionType → Bool
is_handoff TransitionType.repair_executor_handoff = true
is_handoff TransitionType.repair_executor_continued = true
is_handoff _ = false

validate_if_present : Native → Run → TransitionInput → Option AgentResult → Checked Unit
validate_if_present native run input none = ok tt
validate_if_present native run input (some r) = do
  handoff ←
      validate_repair_handoff native.valid_reference run r
        (input.type == TransitionType.repair_executor_continued)
  ok tt

unfoldable pub assert_handoff : Native → Run → TransitionInput → Checked Unit
unfolding validate_if_present
assert_handoff native run input = do
  refuse run input (is_handoff input.type && not (is_present input.repair_agent_result))
      InvalidTransitionCode.missing_payload
  refuse run input (not (is_handoff input.type) && is_present input.repair_agent_result)
      InvalidTransitionCode.unexpected_payload
  validate_if_present native run input input.repair_agent_result
