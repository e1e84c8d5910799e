-- ===== src/Machine/Parking.antt =====
-- Parking a run for a dependency, and taking it up again.
use tachiko_conductor.Prelude.{
  ◌+◌, length, length-append, String, string_eq, option_eq, false, Option, none, some, [], ◌∷◌, ◌≡◌,
  refl, ap, ◌∙◌, ok, arith, if◌then◌else◌,
}
use tachiko_conductor.Types.Names.{WorkflowState, TransitionType, type_eq, state_eq}
use tachiko_conductor.Types.Run.{TransitionInput, Run}
use tachiko_conductor.Native.{Native}
use tachiko_conductor.Machine.Freshness.{ActiveValidationConfiguration}
use tachiko_conductor.Machine.Decisions.{
  is_authorized_human_head_sync, is_authorized_legacy_pull_request_recovery,
}
use tachiko_conductor.Machine.Payload.{
  assert_required, assert_lead, assert_admission, assert_handoff,
}
use tachiko_conductor.Machine.Evidence.{
  assert_expected, assert_validation, assert_bootstrap, assert_pull_request,
  pull_request_unexpected, pull_request_missing, assert_executor, assert_head, assert_agent,
  assert_review,
}
use tachiko_conductor.Machine.Table.{TransitionTarget, transition_table}
use tachiko_conductor.Machine.Apply.{
  assert_payload, assert_native, apply_transition, next_state, resume_state, table_target,
  recorded_handoff, adopt_handoff, next_run, history_record, is_interrupt,
}
use tachiko_conductor.Machine.Graph.{IsActive, IsActive-table, IsActive-is_interrupt}
use tachiko_conductor.Machine.Snapshot.{finished-Fields}
use tachiko_conductor.Telemetry.{record_wait_telemetry}

-- A transition that carries nothing but a reason.
abbrev pub plain : TransitionType → Option String → TransitionInput
plain type reason = record {
  native_lead_stop = none;
  type = type;
  reason = reason;
  agent_result = none;
  review_result = none;
  validation_result = none;
  head_sha = none;
  executor = none;
  repair_admission = none;
  repair_agent_result = none;
  bootstrap = none;
  pull_request = none;
  interrupt = none;
}

resume-nothing_missing :
    (run : Run) (reason : Option String)
    → pull_request_missing run (plain TransitionType.dependency_satisfied reason) ≡ false
unfolding pull_request_missing is_authorized_human_head_sync
    is_authorized_legacy_pull_request_recovery
resume-nothing_missing run reason = ground arith

resume-payload :
    (native : Native) (run : Run) (reason : Option String)
    (active : Option ActiveValidationConfiguration)
    → assert_payload native run (plain TransitionType.dependency_satisfied reason) active ≡ ok tt
unfolding assert_payload assert_required assert_lead assert_admission assert_handoff assert_expected
    assert_validation assert_bootstrap assert_pull_request pull_request_unexpected
    pull_request_missing assert_executor assert_head assert_agent assert_review
    is_authorized_human_head_sync is_authorized_legacy_pull_request_recovery
resume-payload native run reason active = rw (resume-nothing_missing run reason) refl

resume-target :
    (run : Run) (reason : Option String) (s : WorkflowState)
    → run.interrupted_from ≡ some s
    → next_state run (plain TransitionType.dependency_satisfied reason) TransitionTarget.resume
      ≡ ok s
unfolding next_state resume_state is_authorized_human_head_sync
resume-target run reason s h = rw h refl

resume-on_table :
    (run : Run) (input : TransitionInput)
    → run.state ≡ WorkflowState.waiting_dependency
    → table_target run input (transition_table run.state TransitionType.dependency_satisfied)
      ≡ ok TransitionTarget.resume
unfolding table_target transition_table
resume-on_table run input h = rw h refl

resumes_unparked :
    (run : Run) (s : WorkflowState)
    → run.state ≡ WorkflowState.waiting_dependency
    → (if is_interrupt run.state
        then none
        else if is_interrupt s
        then some run.state
        else run.interrupted_from)
      ≡ none
resumes_unparked run s h = rw h refl

-- A run that waits for a dependency and remembers the state it waits from takes that state up again
-- when the dependency is satisfied: a transition that carries nothing but a reason is accepted, unless
-- native evidence refuses it, resumes the state, and adds itself to the history.
pub resume_accepted :
    (native : Native) (run : Run) (reason : Option String) (now : String)
    (active : Option ActiveValidationConfiguration) (s : WorkflowState)
    → run.state ≡ WorkflowState.waiting_dependency
    → run.interrupted_from ≡ some s
    → assert_native native run (plain TransitionType.dependency_satisfied reason) ≡ ok tt
    → (next : Run) × (apply_transition native run
          (plain TransitionType.dependency_satisfied reason)
          now
          active
        ≡ ok next)
      × (next.state ≡ s)
      × (next.interrupted_from ≡ none)
      × (length next.history ≡ length run.history + 1)
unfolding apply_transition recorded_handoff
resume_accepted native run reason now active s parked remembered coherent =
    let input = plain TransitionType.dependency_satisfied reason in
    let next = adopt_handoff none (record_wait_telemetry (next_run run input s now none) now) in
    let on_table : table_target run input (transition_table run.state input.type)
        ≡ ok TransitionTarget.resume =
      resume-on_table run input parked in
    let accepted : apply_transition native run input now active ≡ ok next =
      rw
        (
          coherent,
          on_table,
          resume-payload native run reason active,
          resume-target run reason s remembered,
        )
        refl in
    let f = finished-Fields run input s now none in
    (
      next,
      accepted,
      f.state,
      f.interrupted_from ∙ resumes_unparked run s parked,
      ap length f.history ∙ length-append run.history (history_record run input s now none ∷ []),
    )

park-nothing_missing :
    (run : Run) (reason : Option String)
    → pull_request_missing run (plain TransitionType.wait_dependency reason) ≡ false
unfolding pull_request_missing is_authorized_human_head_sync
    is_authorized_legacy_pull_request_recovery
park-nothing_missing run reason = ground arith

park-payload :
    (native : Native) (run : Run) (reason : Option String)
    (active : Option ActiveValidationConfiguration)
    → assert_payload native run (plain TransitionType.wait_dependency reason) active ≡ ok tt
unfolding assert_payload assert_required assert_lead assert_admission assert_handoff assert_expected
    assert_validation assert_bootstrap assert_pull_request pull_request_unexpected
    pull_request_missing assert_executor assert_head assert_agent assert_review
    is_authorized_human_head_sync is_authorized_legacy_pull_request_recovery
park-payload native run reason active = rw (park-nothing_missing run reason) refl

park-on_table :
    (run : Run) (input : TransitionInput)
    → IsActive run.state
    → table_target run input (transition_table run.state TransitionType.wait_dependency)
      ≡ ok (TransitionTarget.to WorkflowState.waiting_dependency)
unfolding table_target
park-on_table run input active = rw (IsActive-table active).0 refl

parks :
    (run : Run)
    → IsActive run.state
    → (if is_interrupt run.state then none else some run.state) ≡ some run.state
parks run active = rw (IsActive-is_interrupt active) refl

-- A run in an active state is parked for a dependency by a transition that carries nothing but a
-- reason, and taken up again in that state by another, unless native evidence refuses one of them.
pub park-resume :
    (native : Native) (run : Run) (reason satisfied : Option String) (now later : String)
    (active : Option ActiveValidationConfiguration)
    → IsActive run.state
    → assert_native native run (plain TransitionType.wait_dependency reason) ≡ ok tt
    → ((parked : Run)
        → apply_transition native run (plain TransitionType.wait_dependency reason) now active
          ≡ ok parked
        → assert_native native parked (plain TransitionType.dependency_satisfied satisfied) ≡ ok tt)
    → (parked resumed : Run) × (apply_transition native run
          (plain TransitionType.wait_dependency reason)
          now
          active
        ≡ ok parked)
      × (parked.state ≡ WorkflowState.waiting_dependency)
      × (apply_transition native parked
            (plain TransitionType.dependency_satisfied satisfied)
            later
            active
          ≡ ok resumed)
      × (resumed.state ≡ run.state)
unfolding apply_transition recorded_handoff next_state
park-resume native run reason satisfied now later active busy coherent still =
    let input = plain TransitionType.wait_dependency reason in
    let parked =
      adopt_handoff none (
        record_wait_telemetry (next_run run input WorkflowState.waiting_dependency now none) now) in
    let accepted : apply_transition native run input now active ≡ ok parked =
      rw (coherent, park-on_table run input busy, park-payload native run reason active) refl in
    let f = finished-Fields run input WorkflowState.waiting_dependency now none in
    let (resumed, again, state, _, _) =
      resume_accepted native parked satisfied later active run.state f.state
        (f.interrupted_from ∙ parks run busy) (still parked accepted) in
    (parked, resumed, accepted, f.state, again, state)
