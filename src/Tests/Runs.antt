-- ===== src/Tests/Runs.antt =====
-- Runs of the state machine: a new one that is started and parked, and one that passes review.
use tachiko_conductor.Prelude.{
  ◌+◌, length, Option, String, true, false, none, some, [], ◌∷◌, ◌≡◌, refl, ok, err, inl, arith,
  ◌↔◌, ◌⊎◌,
}
use tachiko_conductor.Types.Names.{
  WorkflowState, TransitionType, ReviewVerdict, ValidationStatus, LocalStatus, HostedStatus,
  CommandOutcome, Availability, HostedOverall, PolicyMode,
}
use tachiko_conductor.Types.Evidence.{Target, ValidationResult, ImplementationPullRequestIdentity}
use tachiko_conductor.Types.Run.{TransitionInput, Run}
use tachiko_conductor.Native.{Native}
use tachiko_conductor.Machine.Errors.{Checked, InvalidTransitionCode}
use tachiko_conductor.Machine.Table.{transition_table, TransitionTarget, is_terminal}
use tachiko_conductor.Machine.Freshness.{
  ActiveValidationConfiguration, LocalValidationPolicyIdentity, HostedValidationPolicyIdentity,
}
use tachiko_conductor.Machine.Apply.{apply_transition, assert_native}
use tachiko_conductor.Machine.Apply.{
  table_target, assert_payload, accepted_head, adopt_handoff, history_record, next_run, next_state,
  recorded_handoff, resume_state, with_interrupt, without_stale,
}
use tachiko_conductor.Machine.Payload.{
  assert_required, assert_lead, assert_admission, assert_handoff,
}
use tachiko_conductor.Machine.Evidence.{
  assert_expected, assert_validation, assert_bootstrap, assert_pull_request,
  pull_request_unexpected, pull_request_missing, assert_executor, assert_head, assert_agent,
  assert_review, assert_validation_result, evidence_admits, expected_head, fresh_under,
  reported_head,
}
use tachiko_conductor.Machine.Decisions.{
  is_authorized_human_head_sync, is_authorized_legacy_pull_request_recovery,
}
use tachiko_conductor.Machine.Freshness.{
  fresh_for, is_review_bound_to_head, is_review_internally_consistent, is_validation_fresh,
  validation_evidence_matches_active, validation_hosted_policy_identity,
  validation_local_policy_identity,
}
use tachiko_conductor.Prelude.{is_blank, trim}
use tachiko_conductor.Telemetry.{
  append_run_telemetry_events, create_run_telemetry, record_wait_telemetry,
}
use tachiko_conductor.Validation.{
  is_hosted_evidence, is_local_evidence, is_validation_result_coherent,
}
use tachiko_conductor.Machine.Graph.{
  IsActive, Documented, Undocumented, Resumes, Moves, table-eq-Documented, apply-Moves,
}
use tachiko_conductor.Machine.Parking.{plain, park-resume, resume_accepted}
use tachiko_conductor.Machine.Reach.{
  Reaches, WithoutAuthority, IsFinal, is_terminal-IsFinal, final_refuses, Reaches-WithoutAuthority,
}
use tachiko_conductor.Machine.Binding.{IsBound, apply-IsBound}
use tachiko_conductor.Machine.Approval.{Authorized, approved-Authorized}
use tachiko_conductor.Machine.Create.{create_run}
use tachiko_conductor.Machine.Lifecycle.{Lives, create-Lives}

-- No native review or lead takes part.
abbrev native : Native
native = record {
  review_coherent = λ _. true;
  lead_coherent = λ _. true;
  unresolved_history = λ _. false;
  review_matches = λ _ _. true;
  consumption_valid = λ _ _. true;
  accepted_stop = λ _. none;
  valid_reference = λ _. true;
}

abbrev bare_input : TransitionType → TransitionInput
bare_input type = record {
  native_lead_stop = none;
  type = type;
  reason = some "operator";
  agent_result = none;
  review_result = none;
  validation_result = none;
  head_sha = none;
  executor = none;
  repair_admission = none;
  repair_agent_result = none;
  bootstrap = none;
  pull_request = none;
  interrupt = none;
}

-- The run that a transition results in, or the run before it where it is refused.
abbrev result_or : Run → Checked Run → Run
result_or run (ok next) = next
result_or run (err e) = run

abbrev target : Target
target = Target.issue "nurockplayer" "tachiko-conductor" 47

abbrev new_run : Run
new_run = create_run target "2026-01-01T00:00:00Z" "run-1" none none none

abbrev started : Run
started =
    result_or new_run (apply_transition native new_run (bare_input TransitionType.start) "t1" none)

abbrev parked : Run
parked =
    result_or started
      (apply_transition native started (bare_input TransitionType.escalate) "t2" none)

-- A run in review, with evidence that validation passed at its HEAD.
abbrev head : String
head = "0123456789abcdef0123456789abcdef01234567"

abbrev pull_request : ImplementationPullRequestIdentity
pull_request = record { number = 12; head_sha = head }

abbrev policy : ActiveValidationConfiguration
policy = record {
  local = LocalValidationPolicyIdentity.configured "local-1";
  hosted = HostedValidationPolicyIdentity.configured true "hosted-1";
}

abbrev validation : ValidationResult
validation = record {
  head_sha = head;
  status = ValidationStatus.passed;
  local = record {
    status = LocalStatus.passed;
    config_revision = some "local-1";
    commands =
        record {
          command_index = 0;
          executable = "npm";
          outcome = CommandOutcome.passed;
          exit_code = some 0;
          duration_ms = 1200;
        }
        ∷ [];
  };
  hosted = record {
    status = HostedStatus.passed;
    observed_at = "t0";
    pull_request_number = some 12;
    availability = Availability.available;
    overall = HostedOverall.passing;
    policy_revision = some "hosted-1";
    policy_mode = PolicyMode.required;
    required_check_names = "ci" ∷ [];
    observed_check_names = "ci" ∷ [];
  };
}

abbrev reviewing : Run
reviewing = record new_run {
  state = WorkflowState.reviewing;
  head_sha = some head;
  pull_request = some pull_request;
  validation_result = some validation;
}

abbrev approval : TransitionInput
approval = record (bare_input TransitionType.review_approved) {
  review_result = some (record {
    verdict = ReviewVerdict.approve;
    reviewer_name = "reviewer";
    head_sha = head;
    findings = [];
    telemetry = none;
  });
}

abbrev approved : Run
approved = result_or reviewing (apply_transition native reviewing approval "t3" (some policy))

abbrev merged : Run
merged = record reviewing { state = WorkflowState.merged }

-- What the model computes on these runs.
computed :
    (apply_transition native new_run (bare_input TransitionType.start) "t1" none ≡ ok started)
    × (apply_transition native started (bare_input TransitionType.escalate) "t2" none ≡ ok parked)
    × (parked.state ≡ WorkflowState.needs_human)
    × (parked.interrupted_from ≡ some WorkflowState.implementing)
    × (apply_transition native reviewing approval "t3" (some policy) ≡ ok approved)
    × (approved.state ≡ WorkflowState.final_gate)
    × (assert_native native merged (bare_input TransitionType.start) ≡ ok tt)
unfolding apply_transition create_run assert_native table_target transition_table assert_payload
    assert_required assert_lead assert_admission assert_handoff assert_expected assert_validation
    assert_bootstrap assert_pull_request pull_request_unexpected pull_request_missing
    assert_executor assert_head is_authorized_human_head_sync accepted_head adopt_handoff
    history_record next_run next_state recorded_handoff resume_state with_interrupt without_stale
    is_authorized_legacy_pull_request_recovery assert_agent assert_review assert_validation_result
    evidence_admits expected_head fresh_under reported_head fresh_for is_review_bound_to_head
    is_review_internally_consistent is_validation_fresh validation_evidence_matches_active
    validation_hosted_policy_identity validation_local_policy_identity is_terminal is_blank trim
    append_run_telemetry_events create_run_telemetry record_wait_telemetry is_hosted_evidence
    is_local_evidence is_validation_result_coherent
computed = (refl, refl, refl, refl, refl, refl, refl)

start_accepted :
    apply_transition native new_run (bare_input TransitionType.start) "t1" none ≡ ok started
start_accepted = computed.0

escalate_accepted :
    apply_transition native started (bare_input TransitionType.escalate) "t2" none ≡ ok parked
escalate_accepted = computed.1

approval_accepted : apply_transition native reviewing approval "t3" (some policy) ≡ ok approved
approval_accepted = computed.4

parked-Reaches : Reaches native new_run parked
parked-Reaches =
    Reaches.steps (bare_input TransitionType.escalate) "t2" none
      (Reaches.steps (bare_input TransitionType.start) "t1" none Reaches.stays start_accepted)
      escalate_accepted

create-Lives_example : Lives parked
create-Lives_example =
    create-Lives target "2026-01-01T00:00:00Z" "run-1" none none none native parked parked-Reaches

apply-Moves_example : Moves reviewing approval approved.state
apply-Moves_example = apply-Moves native reviewing approval "t3" (some policy) approval_accepted

reviewing-IsBound : IsBound reviewing
unfolding create_run
reviewing-IsBound = record { review = tt; validation = refl; pull_request = refl }

apply-IsBound_example : IsBound approved
apply-IsBound_example =
    apply-IsBound native reviewing approval "t3" (some policy) reviewing-IsBound approval_accepted

approved-Authorized_example : Authorized reviewing approval (some policy)
approved-Authorized_example =
    approved-Authorized native reviewing approval "t3" (some policy) refl approval_accepted

new_run-WithoutAuthority : WithoutAuthority new_run
unfolding create_run
new_run-WithoutAuthority = record { here = λ a. ground arith; resumes = λ s e a. cc }

Reaches-WithoutAuthority_example : WithoutAuthority parked
Reaches-WithoutAuthority_example = Reaches-WithoutAuthority new_run-WithoutAuthority parked-Reaches

is_terminal-IsFinal_example :
    (is_terminal WorkflowState.merged ≡ true) ↔ IsFinal WorkflowState.merged
is_terminal-IsFinal_example = is_terminal-IsFinal WorkflowState.merged

table-eq-Documented_example :
    ((u : WorkflowState)
      → (transition_table WorkflowState.reviewing TransitionType.revalidate
          ≡ some (TransitionTarget.to u))
        ↔ (Documented WorkflowState.reviewing TransitionType.revalidate u
            ⊎ Undocumented WorkflowState.reviewing TransitionType.revalidate u))
    × ((transition_table WorkflowState.reviewing TransitionType.revalidate
          ≡ some TransitionTarget.resume)
        ↔ Resumes WorkflowState.reviewing TransitionType.revalidate)
    × ((u v : WorkflowState)
        → Undocumented WorkflowState.reviewing TransitionType.revalidate u
        → ¬ Documented WorkflowState.reviewing TransitionType.revalidate v)
table-eq-Documented_example = table-eq-Documented WorkflowState.reviewing TransitionType.revalidate

final_refuses_example :
    apply_transition native merged (bare_input TransitionType.start) "t4" none
    ≡ err (record {
      code = InvalidTransitionCode.terminal_state;
      from_state = WorkflowState.merged;
      transition = TransitionType.start;
    })
final_refuses_example =
    final_refuses native merged (bare_input TransitionType.start) "t4" none (inl refl) computed.6

native_accepts :
    (run : Run) (reason : Option String)
    → (assert_native native run (plain TransitionType.wait_dependency reason) ≡ ok tt)
      × (assert_native native run (plain TransitionType.dependency_satisfied reason) ≡ ok tt)
unfolding assert_native
native_accepts run reason = (refl, refl)

park-resume_example :
    (parked resumed : Run) × (apply_transition native reviewing
        (plain TransitionType.wait_dependency none)
        "t5"
        none
      ≡ ok parked)
    × (parked.state ≡ WorkflowState.waiting_dependency)
    × (apply_transition native parked (plain TransitionType.dependency_satisfied none) "t6" none
        ≡ ok resumed)
    × (resumed.state ≡ WorkflowState.reviewing)
park-resume_example =
    park-resume native reviewing none none "t5" "t6" none IsActive.reviewing
      (native_accepts reviewing none).0 (λ parked _. (native_accepts parked none).1)

abbrev waiting : Run
waiting = record reviewing {
  state = WorkflowState.waiting_dependency;
  interrupted_from = some WorkflowState.validating;
}

resume_accepted_example :
    (next : Run) × (apply_transition native waiting
        (plain TransitionType.dependency_satisfied none)
        "t5"
        none
      ≡ ok next)
    × (next.state ≡ WorkflowState.validating)
    × (next.interrupted_from ≡ none)
    × (length next.history ≡ length waiting.history + 1)
resume_accepted_example =
    resume_accepted native waiting none "t5" none WorkflowState.validating refl refl
      (native_accepts waiting none).1
