-- ===== src/Tests/Waits.antt =====
-- A worker that is observed active and then failed, and later again.
use tachiko_conductor.Prelude.{
  String, ℕ, zero, suc, List, ◌∷◌, ◌++◌, string_eq, nat_eq, option_eq, ◌+◌, true, false, none, some,
  [], ◌≡◌, ◌≢◌, refl, sym, ap, subst, ◌∙◌, ◌==◌, if◌then◌else◌, ok, arith, length, map, ◌⊎◌,
}
use tachiko_conductor.Wait.Observation.{
  WaitObservationSource, WaitSubjectStatus, WaitObservation, WaitObservationState, WaitDigests,
  wait_observation_digest,
}
use tachiko_conductor.Wait.Classify.{
  WaitChangeKind, WaitWakeReason, OnTimeout, no_wake, changed, classify_wait_change,
  decide_wait_wake,
}
use tachiko_conductor.Wait.Ledger.{WaitLedger, create_wait_ledger, previous_observation}
use tachiko_conductor.Wait.Advance.{
  AdvanceInput, WaitLedgerAdvance, advance_result, advance_change, advance_decision,
  advance_woke_now, already_recorded, is_duplicate, differs, next_ledger, advance_wait_ledger,
  is_terminal_reason, observation_record,
}
use tachiko_conductor.Wait.Delivery.{
  bound_wait_ledger, pending_wait_wakes, mark_wait_wakes_delivered,
}
use tachiko_conductor.Wait.Timeout.{record_wake}
use tachiko_conductor.Wait.Migration.{stored, migrate_wait_ledger, absorbing_wakes}
use tachiko_conductor.Wait.Wakes.{Leads, Distinct, Leads-Distinct}
use tachiko_conductor.Wait.Settled.{absorbed-silent}
use tachiko_conductor.Wait.Boundaries.{
  IsDecision, woke-IsDecision, absorbing-wakes, native_turn-wakes,
}
use tachiko_conductor.Wait.Retention.{pending-mark_delivered}

abbrev status_name : WaitSubjectStatus → String
status_name WaitSubjectStatus.idle = "idle"
status_name WaitSubjectStatus.active = "active"
status_name WaitSubjectStatus.completed = "completed"
status_name WaitSubjectStatus.failed = "failed"
status_name WaitSubjectStatus.blocked = "blocked"
status_name WaitSubjectStatus.unknown = "unknown"
status_name WaitSubjectStatus.unavailable = "unavailable"

abbrev status_of : String → WaitSubjectStatus
status_of name =
    if name == "idle"
    then WaitSubjectStatus.idle
    else if name == "active"
    then WaitSubjectStatus.active
    else if name == "completed"
    then WaitSubjectStatus.completed
    else if name == "failed"
    then WaitSubjectStatus.failed
    else if name == "blocked"
    then WaitSubjectStatus.blocked
    else if name == "unknown"
    then WaitSubjectStatus.unknown
    else WaitSubjectStatus.unavailable

status_of-status_name : (status : WaitSubjectStatus) → status_of (status_name status) ≡ status
status_of-status_name WaitSubjectStatus.idle = refl
status_of-status_name WaitSubjectStatus.active = refl
status_of-status_name WaitSubjectStatus.completed = refl
status_of-status_name WaitSubjectStatus.failed = refl
status_of-status_name WaitSubjectStatus.blocked = refl
status_of-status_name WaitSubjectStatus.unknown = refl
status_of-status_name WaitSubjectStatus.unavailable = refl

-- Digests that tell apart the statuses.
abbrev digests : WaitDigests
digests = record { state_digest = λ s. status_name s.status; evidence_digest = λ _. "" }

abbrev observed : WaitSubjectStatus → WaitObservation
observed status = record {
  source = WaitObservationSource.runtime;
  subject_id = "run-1";
  status = status;
  active_item_id = none;
  progress = record { items = 0; turns = 0 };
  last_completed_turn_id = none;
  head_sha = none;
  evidence = [];
  observed_at = "t";
}

abbrev input_of : WaitLedger → WaitSubjectStatus → AdvanceInput
input_of ledger status = record {
  ledger = ledger;
  observation = observed status;
  at = "t";
  policy = record { timeout_ms = 1000; on_timeout = OnTimeout.policy_action };
  timed_out = false;
  expected_owner_run_id = some "run-1";
  expected_generation = some "generation-1";
}

abbrev empty : WaitLedger
empty = create_wait_ledger "run-1" "run-1" "generation-1"

abbrev busy : AdvanceInput
busy = input_of empty WaitSubjectStatus.active

abbrev after_busy : WaitLedgerAdvance
after_busy = advance_result digests busy

abbrev failing : AdvanceInput
failing = input_of after_busy.ledger WaitSubjectStatus.failed

abbrev after_failing : WaitLedgerAdvance
after_failing = advance_result digests failing

-- The ledger is written and read again, the subject is active again, and the wait has timed out.
abbrev late : AdvanceInput
late =
    record (input_of (migrate_wait_ledger (stored (bound_wait_ledger after_failing.ledger)))
      WaitSubjectStatus.active) { timed_out = true }

abbrev after_late : WaitLedgerAdvance
after_late = advance_result digests late

computed :
    (advance_wait_ledger digests busy ≡ ok after_busy)
    × (after_busy.woke_now ≡ false)
    × (advance_wait_ledger digests failing ≡ ok after_failing)
    × (after_failing.woke_now ≡ true)
    × (advance_wait_ledger digests late ≡ ok after_late)
    × (is_duplicate digests failing.ledger failing.observation ≡ false)
    × (already_recorded failing.ledger (wait_observation_digest digests failing.observation)
        ≡ false)
    × (failing.ledger.subject_id ≡ failing.observation.subject_id)
    × (after_failing.change.kind ≡ WaitChangeKind.failure)
    × (differs failing.expected_owner_run_id failing.ledger.owner_run_id ≡ false)
    × (differs failing.expected_generation failing.ledger.generation ≡ false)
    × (previous_observation failing.ledger "run-1" ≡ some (observed WaitSubjectStatus.active))
    × (length after_failing.ledger.delivered_wake_ids + length after_failing.ledger.wakes ≡ 1)
    × (is_terminal_reason after_failing.wake.reason ≡ true)
unfolding create_wait_ledger advance_wait_ledger advance_result next_ledger advance_woke_now
    advance_decision advance_change classify_wait_change changed decide_wait_wake already_recorded
    bound_wait_ledger migrate_wait_ledger stored absorbing_wakes
computed = (refl, refl, refl, refl, refl, refl, refl, refl, refl, refl, refl, refl, refl, refl)

after_failing-Leads : Leads digests empty (bound_wait_ledger after_failing.ledger)
after_failing-Leads = Leads.bounds (
    Leads.advances failing after_failing (Leads.advances busy after_busy Leads.stays computed.0)
      computed.2)

empty-Distinct : Distinct empty.wakes
unfolding create_wait_ledger
empty-Distinct = tt

Leads-Distinct_example : Distinct (bound_wait_ledger after_failing.ledger).wakes
Leads-Distinct_example = Leads-Distinct after_failing-Leads empty-Distinct

absorbed-silent_example :
    (after_late.woke_now ≡ false)
    × (after_late.ledger.wakes ≡ late.ledger.wakes)
    × ((record_wake digests late.ledger late.observation late.at
          (advance_decision digests late)).wake
        ≡ no_wake)
absorbed-silent_example =
    absorbed-silent failing after_failing late after_late (advance_decision digests late) computed.5
      refl computed.2 computed.3 computed.13 (Leads.adopts (Leads.bounds Leads.stays)) computed.4

woke-IsDecision_example :
    IsDecision after_failing.change
    ⊎ ((failing.timed_out ≡ true) × (failing.policy.on_timeout ≡ OnTimeout.policy_action))
woke-IsDecision_example = woke-IsDecision digests failing computed.2 computed.3

digests_tell :
    (a b : WaitObservationState)
    → digests.state_digest a ≡ digests.state_digest b
    → a.status ≡ b.status
digests_tell a b h =
    sym (status_of-status_name a.status) ∙ ap status_of h ∙ status_of-status_name b.status

was_active :
    (p : WaitObservation)
    → previous_observation failing.ledger failing.observation.subject_id ≡ some p
    → (p.subject_id ≡ failing.observation.subject_id) × (p.status ≢ failing.observation.status)
was_active p h =
    let is_active : some (observed WaitSubjectStatus.active) ≡ some p = sym computed.11 ∙ h in
    let same : observed WaitSubjectStatus.active ≡ p = cc in
    subst
      (λ (q : WaitObservation). (q.subject_id ≡ "run-1") × (q.status ≢ WaitSubjectStatus.failed))
      same (refl, λ e. cc)

absorbing-wakes_example :
    (advance_wait_ledger digests failing ≡ ok after_failing)
    × (after_failing.woke_now ≡ true)
    × (after_failing.wake.reason ≡ some WaitWakeReason.failure)
absorbing-wakes_example =
    absorbing-wakes digests failing digests_tell computed.9 computed.10 computed.7 computed.5
      computed.6 refl was_active

-- A ledger with more observations than it may keep.
abbrev copies {ℓ} : {A : Type ℓ} → ℕ → A → List A
copies zero x = []
copies (suc n) x = x ∷ copies n x

abbrev crowded : AdvanceInput
crowded = record failing {
  ledger = record failing.ledger {
    observations =
        copies 201 (observation_record digests failing) ++ observation_record digests busy ∷ [];
    last_native_status = some WaitSubjectStatus.active;
  };
}

pending-mark_delivered_example :
    pending_wait_wakes (
      mark_wait_wakes_delivered after_failing.ledger
        (map (λ wake. wake.id) (pending_wait_wakes after_failing.ledger)))
    ≡ []
pending-mark_delivered_example =
    pending-mark_delivered after_failing.ledger (omega (arith, computed.12))

-- A native read finds the subject active, and the next one idle.
abbrev native_read : WaitSubjectStatus → WaitObservation
native_read status = record (observed status) { source = WaitObservationSource.native }

abbrev turning : AdvanceInput
turning = record (input_of empty WaitSubjectStatus.active) {
  observation = native_read WaitSubjectStatus.active;
}

abbrev turned : AdvanceInput
turned = record (input_of (next_ledger digests turning) WaitSubjectStatus.idle) {
  observation = native_read WaitSubjectStatus.idle;
}

computed_turn :
    (previous_observation turned.ledger turned.observation.subject_id
      ≡ some (native_read WaitSubjectStatus.active))
    × (is_duplicate digests turned.ledger turned.observation ≡ false)
    × (already_recorded turned.ledger (wait_observation_digest digests turned.observation) ≡ false)
    × (turned.ledger.last_native_status ≡ some WaitSubjectStatus.active)
    × (differs turned.expected_owner_run_id turned.ledger.owner_run_id ≡ false)
    × (differs turned.expected_generation turned.ledger.generation ≡ false)
    × (turned.ledger.subject_id ≡ turned.observation.subject_id)
unfolding create_wait_ledger next_ledger advance_woke_now advance_decision advance_change
    classify_wait_change changed decide_wait_wake already_recorded
computed_turn = (refl, refl, refl, refl, refl, refl, refl)

names_differ : status_name WaitSubjectStatus.active ≢ status_name WaitSubjectStatus.idle
names_differ h = let same : WaitSubjectStatus.active ≡ WaitSubjectStatus.idle = ap status_of h in cc

native_turn-wakes_example :
    (advance_wait_ledger digests turned ≡ ok (advance_result digests turned))
    × ((advance_result digests turned).woke_now ≡ true)
    × ((advance_result digests turned).wake.reason ≡ some WaitWakeReason.completion)
native_turn-wakes_example =
    native_turn-wakes digests turned (native_read WaitSubjectStatus.active) computed_turn.4
      computed_turn.5 computed_turn.6 computed_turn.0 refl names_differ computed_turn.1
      computed_turn.2 computed_turn.3 refl
