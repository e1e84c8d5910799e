-- ===== src/Machine/Apply.antt =====
-- src/domain/state-machine.ts: `applyTransition`.
use tachiko_conductor.Prelude.{
  ℕ, String, string_eq, nat_eq, option_eq, Bool, true, false, not, ◌&&◌, ◌||◌, ◌==◌, Option, none,
  some, List, [], ◌∷◌, ◌++◌, ok, err, ◌>>=◌, ◌>>◌, if◌then◌else◌,
}
use tachiko_conductor.Types.Names.{
  WorkflowState, state_eq, TransitionType, type_eq, RecordType, InterruptKind,
}
use tachiko_conductor.Types.Evidence.{AgentResult, ExecutorIdentity, ReviewResult}
use tachiko_conductor.Types.Repair.{
  RepairAdmissionSnapshot, RepairAttemptBinding, RepairExecutorHandoff, RepairHandoffRecord,
}
use tachiko_conductor.Types.Run.{Interrupt, InterruptInput, TransitionRecord, TransitionInput, Run}
use tachiko_conductor.Telemetry.{record_wait_telemetry}
use tachiko_conductor.Native.{Native}
use tachiko_conductor.Repair.Identity.{or_else, result_executor}
use tachiko_conductor.Repair.Active.{all_admissions}
use tachiko_conductor.Machine.Table.{
  TransitionTarget, transition_table, is_terminal, is_present, requires_review_result, updates_head,
}
use tachiko_conductor.Machine.Freshness.{ActiveValidationConfiguration}
use tachiko_conductor.Machine.Decisions.{is_authorized_human_head_sync}
use tachiko_conductor.Machine.Errors.{InvalidTransitionCode, Checked, invalid, refuse}
use tachiko_conductor.Machine.Handoff.{validate_repair_handoff}
use tachiko_conductor.Machine.Payload.{
  assert_required, assert_lead, assert_admission, assert_handoff,
}
use tachiko_conductor.Machine.Evidence.{
  assert_expected, assert_validation, assert_bootstrap, assert_pull_request, assert_executor,
  assert_head, assert_agent, assert_review, reported_head,
}

unfoldable pub assert_payload :
    Native → Run → TransitionInput → Option ActiveValidationConfiguration → Checked Unit
assert_payload native run input active = do
  assert_required run input
  assert_lead native run input
  assert_admission native run input
  assert_handoff native run input
  assert_expected run input
  assert_validation run input
  assert_bootstrap run input
  assert_pull_request run input
  assert_executor run input
  assert_head run input
  assert_agent run input
  assert_review run input active

-- The transitions that unresolved native history holds back.
abbrev pub needs_resolved_history : TransitionType → Bool
needs_resolved_history TransitionType.start = true
needs_resolved_history TransitionType.start_fix = true
needs_resolved_history TransitionType.review_approved = true
needs_resolved_history TransitionType.changes_requested = true
needs_resolved_history TransitionType.merged = true
needs_resolved_history TransitionType.agent_succeeded = true
needs_resolved_history _ = false

unfoldable pub assert_native : Native → Run → TransitionInput → Checked Unit
assert_native native run input = do
  refuse run input (not (native.review_coherent run) || not (native.lead_coherent run))
      InvalidTransitionCode.invalid_native_evidence
  refuse run input (needs_resolved_history input.type && native.unresolved_history run)
      InvalidTransitionCode.invalid_native_evidence
  refuse run input
      (requires_review_result input.type
        && is_present run.native_review
        && not (native.review_matches run input.review_result))
      InvalidTransitionCode.invalid_native_evidence

unfoldable pub table_target :
    Run → TransitionInput → Option TransitionTarget → Checked TransitionTarget
table_target run input (some target) = ok target
table_target run input none = err (
    invalid run input (
      if is_terminal run.state
      then InvalidTransitionCode.terminal_state
      else InvalidTransitionCode.unknown_transition))

unfoldable pub resume_state : Run → TransitionInput → Option WorkflowState → Checked WorkflowState
resume_state run input none = err (invalid run input InvalidTransitionCode.no_interrupt_context)
resume_state run input (some from) =
    ok (if is_authorized_human_head_sync run input then WorkflowState.validating else from)

unfoldable pub next_state : Run → TransitionInput → TransitionTarget → Checked WorkflowState
unfolding resume_state
next_state run input (TransitionTarget.to state) = ok state
next_state run input TransitionTarget.resume = resume_state run input run.interrupted_from

-- The HEAD that the transition reports, where it may change the run's.
unfoldable pub accepted_head : Run → TransitionInput → Option String
accepted_head run input =
    if not (
        input.type == TransitionType.agent_failed
        && (is_present run.bootstrap || is_present run.pull_request))
      && (updates_head input.type || is_authorized_human_head_sync run input)
    then reported_head input
    else none

-- `headSha !== undefined && headSha !== ''`
abbrev pub is_head : Option String → Bool
is_head none = false
is_head (some s) = not (s == "")

-- The run without the evidence that the transition makes stale.
unfoldable pub without_stale : Run → TransitionInput → Run
without_stale run input =
    let head = accepted_head run input in
    if is_head head && not (head == run.head_sha)
    then record run { validation_result = none; review_result = none }
    else if input.type == TransitionType.revalidate
    then record run { review_result = none }
    else run

abbrev pub strip_agent : Option AgentResult → Option AgentResult
strip_agent none = none
strip_agent (some r) = some (record r { telemetry = none })

abbrev pub strip_review : Option ReviewResult → Option ReviewResult
strip_review none = none
strip_review (some r) = some (record r { telemetry = none })

binding_index : Option RepairAttemptBinding → Option ℕ
binding_index none = none
binding_index (some b) = some b.admission_index

admission_index : TransitionType → Option RepairAdmissionSnapshot → Option ℕ
unfolding binding_index
admission_index TransitionType.start_fix (some a) = binding_index a.attempt_binding
admission_index _ _ = none

unfoldable pub history_record :
    Run → TransitionInput → WorkflowState → String → Option RepairHandoffRecord → TransitionRecord
unfolding admission_index
history_record run input to now handoff = record {
  native_lead_stop = input.native_lead_stop;
  type = RecordType.transition input.type;
  from = run.state;
  to = to;
  at = now;
  reason = input.reason;
  repair_handoff = handoff;
  repair_admission_index = admission_index input.type input.repair_admission;
}

abbrev pub is_interrupt : WorkflowState → Bool
is_interrupt WorkflowState.waiting_dependency = true
is_interrupt WorkflowState.needs_human = true
is_interrupt _ = false

interrupt_kind : WorkflowState → InterruptKind
interrupt_kind WorkflowState.needs_human = InterruptKind.needs_human
interrupt_kind _ = InterruptKind.waiting_dependency

some_choices : Option (List String) → Option (List String)
some_choices (some (c ∷ cs)) = some (c ∷ cs)
some_choices _ = none

input_evidence : Option InterruptInput → Option String
input_evidence none = none
input_evidence (some i) = i.evidence

input_choices : Option InterruptInput → Option (List String)
unfolding some_choices
input_choices none = none
input_choices (some i) = some_choices i.choices

reason_or_empty : Option String → String
reason_or_empty none = ""
reason_or_empty (some reason) = reason

new_interrupt : TransitionInput → WorkflowState → String → Interrupt
unfolding interrupt_kind input_evidence input_choices reason_or_empty
new_interrupt input to now = record {
  kind = interrupt_kind to;
  reason = reason_or_empty input.reason;
  created_at = now;
  resolved_at = none;
  evidence = input_evidence input.interrupt;
  choices = input_choices input.interrupt;
}

resolved : Option Interrupt → Option Interrupt → String → Option Interrupt
resolved none entered now = entered
resolved (some i) entered now = some (record i { resolved_at = some now })

-- The interrupt of the new snapshot: an entered one, unless the run leaves an interrupt.
unfoldable pub with_interrupt : Run → TransitionInput → WorkflowState → String → Run → Run
unfolding new_interrupt resolved
with_interrupt run input to now next =
    let entered =
      if is_interrupt to
      then record next {
        interrupted_from = some run.state;
        interrupt = some (new_interrupt input to now);
      }
      else next in
    if is_interrupt run.state
    then record entered {
      interrupted_from = none;
      interrupt = resolved run.interrupt entered.interrupt now;
    }
    else entered

appended_admissions :
    TransitionType
    → Option RepairAdmissionSnapshot
    → Option (List RepairAdmissionSnapshot)
    → Option (List RepairAdmissionSnapshot)
appended_admissions TransitionType.start_fix (some a) old = some (all_admissions old ++ a ∷ [])
appended_admissions _ _ old = old

-- The new snapshot, before telemetry and the adoption of a handoff. A field whose payload is absent
-- keeps the value that `without_stale` leaves.
unfoldable pub next_run :
    Run → TransitionInput → WorkflowState → String → Option RepairHandoffRecord → Run
unfolding appended_admissions
next_run run input to now handoff =
    let kept = without_stale run input in
    let head = accepted_head run input in
    with_interrupt run input to now (record kept {
      state = to;
      updated_at = now;
      history = run.history ++ history_record run input to now handoff ∷ [];
      agent_result = or_else (strip_agent input.agent_result) run.agent_result;
      executor = or_else input.executor (or_else (result_executor input.agent_result) run.executor);
      bootstrap = or_else input.bootstrap run.bootstrap;
      pull_request = or_else input.pull_request run.pull_request;
      review_result = or_else (strip_review input.review_result) kept.review_result;
      validation_result = or_else input.validation_result kept.validation_result;
      repair_admissions =
          appended_admissions input.type input.repair_admission run.repair_admissions;
      head_sha = if is_head head then head else run.head_sha;
    })

abbrev adopted_identity : RepairExecutorHandoff → Option ExecutorIdentity
adopted_identity (RepairExecutorHandoff.executor i) = some i
adopted_identity RepairExecutorHandoff.sessionless = none

abbrev identity_session : Option ExecutorIdentity → Option String
identity_session none = none
identity_session (some i) = some i.session_id

rebind_result : Option ExecutorIdentity → Option AgentResult → Option AgentResult
rebind_result adopted none = none
rebind_result adopted (some r) =
    some (record r { executor = adopted; session_id = identity_session adopted })

-- A recorded handoff replaces the executor of the run and of its agent result.
unfoldable pub adopt_handoff : Option RepairHandoffRecord → Run → Run
unfolding rebind_result
adopt_handoff none run = run
adopt_handoff (some h) run =
    let adopted = adopted_identity h.outcome in
    record run { executor = adopted; agent_result = rebind_result adopted run.agent_result }

unfoldable pub recorded_handoff :
    Native → Run → TransitionInput → Option AgentResult → Checked (Option RepairHandoffRecord)
recorded_handoff native run input none = ok none
recorded_handoff native run input (some r) = do
  handoff ←
      validate_repair_handoff native.valid_reference run r
        (input.type == TransitionType.repair_executor_continued)
  ok (some handoff)

unfoldable pub apply_transition :
    Native
    → Run
    → TransitionInput
    → (now : String) → Option ActiveValidationConfiguration
    → Checked Run
apply_transition native run input now active = do
  assert_native native run input
  target ← table_target run input (transition_table run.state input.type)
  assert_payload native run input active
  to ← next_state run input target
  handoff ← recorded_handoff native run input input.repair_agent_result
  ok (adopt_handoff handoff (record_wait_telemetry (next_run run input to now handoff) now))
