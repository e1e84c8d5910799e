-- ===== src/Wait/Boundaries.antt =====
-- Which observations wake the model: decisions do, progress does not.
use tachiko_conductor.Prelude.{
  string_eq, Bool, true, false, not, ◌&&◌, ◌==◌, ◌≡◌, ◌≢◌, refl, sym, ◌∙◌, subst, Eq, Option, none,
  some, ok, arith, ◌⊎◌, inl, inr, Bool-cases, option_eq,
}
use tachiko_conductor.Wait.Observation.{
  WaitObservation, source_eq, WaitSubjectStatus, status_eq, WaitDigests, WaitObservationState,
  wait_observation_digest,
}
use tachiko_conductor.Wait.Classify.{
  WaitChangeKind, WaitChange, WaitWakeReason, OnTimeout, on_timeout_eq, WaitWakePolicy,
  WaitNativeBoundary, no_change, native_idle, changed, classify_wait_change, terminal_status_change,
  decide_wait_wake, wake_reason_for_change, last_native_status, is_absorbing_wait_status,
}
use tachiko_conductor.Wait.Ledger.{previous_observation}
use tachiko_conductor.Wait.Advance.{
  AdvanceInput, WaitLedgerAdvance, advance_change, advance_decision, advance_wait_ledger,
  advance_woke_now, advance_result, already_recorded, is_duplicate, differs,
}
use tachiko_conductor.Wait.Wakes.{advance-eq-result}

-- The change is one that the orchestrator has to decide on.
abbrev pub IsDecision : WaitChange → Type 0
IsDecision change =
    (change.kind ≡ WaitChangeKind.completion)
    ⊎ ((change.kind ≡ WaitChangeKind.failure) ⊎ (change.kind ≡ WaitChangeKind.blocked))

decide-IsDecision :
    (change : WaitChange) (observation : WaitObservation) (timed_out : Bool)
    (policy : WaitWakePolicy) (reached : Bool)
    → (decide_wait_wake change observation timed_out policy reached).should_wake ≡ true
    → IsDecision change ⊎ ((timed_out ≡ true) × (policy.on_timeout ≡ OnTimeout.policy_action))
unfolding decide_wait_wake
decide-IsDecision change observation timed_out policy reached h = ground arith

woke_now-should_wake :
    (digests : WaitDigests) (input : AdvanceInput)
    → advance_woke_now digests input ≡ true
    → (advance_decision digests input).should_wake ≡ true
unfolding advance_woke_now
woke_now-should_wake digests input h = ground (arith, h)

advance-IsDecision :
    (digests : WaitDigests) (input : AdvanceInput)
    → (advance_decision digests input).should_wake ≡ true
    → IsDecision (advance_change digests input.ledger input.observation)
      ⊎ ((input.timed_out ≡ true) × (input.policy.on_timeout ≡ OnTimeout.policy_action))
unfolding advance_decision
advance-IsDecision digests input h =
    decide-IsDecision (advance_change digests input.ledger input.observation) input.observation
      input.timed_out input.policy input.ledger.terminal_reached h

-- An accepted observation wakes the model only where the change is a completion, a failure or a
-- blocked subject, or where the wait has timed out under a policy that acts on it: progress alone
-- never does.
pub woke-IsDecision :
    (digests : WaitDigests) (input : AdvanceInput) {advance : WaitLedgerAdvance}
    → advance_wait_ledger digests input ≡ ok advance
    → advance.woke_now ≡ true
    → IsDecision advance.change
      ⊎ ((input.timed_out ≡ true) × (input.policy.on_timeout ≡ OnTimeout.policy_action))
unfolding advance_result
woke-IsDecision digests input h woke =
    let e = advance-eq-result digests input h in
    let now = subst (λ (a : WaitLedgerAdvance). a.woke_now ≡ true) e woke in
    rw e (advance-IsDecision digests input (woke_now-should_wake digests input now))

-- Why the model wakes for an absorbing status.
abbrev pub absorbing_reason : WaitSubjectStatus → Option WaitWakeReason
absorbing_reason WaitSubjectStatus.completed = some WaitWakeReason.completion
absorbing_reason WaitSubjectStatus.failed = some WaitWakeReason.failure
absorbing_reason _ = none

-- The change is a decision for the reason of the status.
abbrev Calls : WaitSubjectStatus → WaitChange → Type 0
Calls status change =
    (change.meaningful ≡ true) × (wake_reason_for_change change ≡ absorbing_reason status)

beq_ne {ℓ} : {A : Type ℓ} ⦃e : Eq A⦄ (a b : A) → a ≢ b → (a == b) ≡ false
beq_ne ⦃e⦄ a b n = elim (Bool-cases (a == b)) [
  | inl same ↦ absurd (n ((e.beq_iff a b).0 same))
  | inr other ↦ other
]

terminal_status_change-Calls :
    (status : WaitSubjectStatus) (next : WaitObservation) (otherwise : WaitChange)
    → is_absorbing_wait_status status ≡ true
    → Calls status (terminal_status_change status next otherwise)
terminal_status_change-Calls WaitSubjectStatus.completed next otherwise h = (refl, refl)
terminal_status_change-Calls WaitSubjectStatus.failed next otherwise h = (refl, refl)
terminal_status_change-Calls _ next otherwise h = ground arith

changed-Calls :
    (digests : WaitDigests) (previous next : WaitObservation) (native : Option WaitObservation)
    (boundary : WaitNativeBoundary)
    → is_absorbing_wait_status next.status ≡ true
    → (next.status == previous.status) ≡ false
    → Calls next.status (changed digests previous next native boundary)
unfolding changed
changed-Calls digests previous next native boundary h differs =
    let busy : native_idle next ≡ false = ground (arith, h) in
    let first : ((last_native_status boundary native == some WaitSubjectStatus.active)
          && native_idle next)
        ≡ false =
      ground (arith, busy) in
    rw (first, busy, differs) (terminal_status_change-Calls next.status next _ h)

classify-Calls :
    (digests : WaitDigests) (previous : Option WaitObservation) (next : WaitObservation)
    (native : Option WaitObservation) (boundary : WaitNativeBoundary)
    → ((a b : WaitObservationState)
        → digests.state_digest a ≡ digests.state_digest b
        → a.status ≡ b.status)
    → is_absorbing_wait_status next.status ≡ true
    → ((p : WaitObservation)
        → previous ≡ some p
        → (p.subject_id ≡ next.subject_id) × (p.status ≢ next.status))
    → Calls next.status (classify_wait_change digests previous next native boundary)
unfolding classify_wait_change
classify-Calls digests none next native boundary injective h new =
    terminal_status_change-Calls next.status next no_change h
classify-Calls digests (some p) next native boundary injective h new =
    let (subject, moved) = new p refl in
    let same : not (p.subject_id == next.subject_id) ≡ false =
      ground (arith, string_eq.beq_iff p.subject_id next.subject_id, subject) in
    let other : (wait_observation_digest digests p == wait_observation_digest digests next)
        ≡ false =
      beq_ne _ _ (λ e. moved (injective _ _ e)) in
    let differs : (next.status == p.status) ≡ false = beq_ne _ _ (λ e. moved (sym e)) in
    rw (same, other) (changed-Calls digests p next native boundary h differs)

decide-Calls :
    (change : WaitChange) (observation : WaitObservation) (timed_out : Bool)
    (policy : WaitWakePolicy) (reached : Bool) (reason : WaitWakeReason)
    → change.meaningful ≡ true
    → wake_reason_for_change change ≡ some reason
    → ((decide_wait_wake change observation timed_out policy reached).should_wake ≡ true)
      × ((decide_wait_wake change observation timed_out policy reached).reason ≡ some reason)
unfolding decide_wait_wake
decide-Calls change observation timed_out policy reached reason m r = rw (r, m) (refl, refl)

absorbing_reason-some :
    (status : WaitSubjectStatus)
    → is_absorbing_wait_status status ≡ true
    → (reason : WaitWakeReason) × (absorbing_reason status ≡ some reason)
absorbing_reason-some WaitSubjectStatus.completed h = (WaitWakeReason.completion, refl)
absorbing_reason-some WaitSubjectStatus.failed h = (WaitWakeReason.failure, refl)
absorbing_reason-some _ h = ground arith

fresh_change-Calls :
    (digests : WaitDigests) (input : AdvanceInput)
    → ((a b : WaitObservationState)
        → digests.state_digest a ≡ digests.state_digest b
        → a.status ≡ b.status)
    → is_duplicate digests input.ledger input.observation ≡ false
    → is_absorbing_wait_status input.observation.status ≡ true
    → ((p : WaitObservation)
        → previous_observation input.ledger input.observation.subject_id ≡ some p
        → (p.subject_id ≡ input.observation.subject_id) × (p.status ≢ input.observation.status))
    → Calls input.observation.status (advance_change digests input.ledger input.observation)
unfolding advance_change
fresh_change-Calls digests input injective new absorbing moved = rw new (
    classify-Calls digests (previous_observation input.ledger input.observation.subject_id)
      input.observation _ _ injective absorbing moved)

advance-Calls :
    (digests : WaitDigests) (input : AdvanceInput) (reason : WaitWakeReason)
    → (advance_change digests input.ledger input.observation).meaningful ≡ true
    → wake_reason_for_change (advance_change digests input.ledger input.observation) ≡ some reason
    → already_recorded input.ledger (wait_observation_digest digests input.observation) ≡ false
    → ((advance_result digests input).woke_now ≡ true)
      × ((advance_result digests input).wake.reason ≡ some reason)
unfolding advance_result advance_woke_now advance_decision
advance-Calls digests input reason m r fresh =
    let (wakes, why) =
      decide-Calls (advance_change digests input.ledger input.observation) input.observation
        input.timed_out input.policy input.ledger.terminal_reached reason m r in
    (rw (wakes, fresh) refl, rw (wakes, fresh) why)

accepts :
    (digests : WaitDigests) (input : AdvanceInput)
    → differs input.expected_owner_run_id input.ledger.owner_run_id ≡ false
    → differs input.expected_generation input.ledger.generation ≡ false
    → input.ledger.subject_id ≡ input.observation.subject_id
    → advance_wait_ledger digests input ≡ ok (advance_result digests input)
unfolding advance_wait_ledger
accepts digests input owner generation subject =
    let same : not (input.ledger.subject_id == input.observation.subject_id) ≡ false =
      ground
        (arith, string_eq.beq_iff input.ledger.subject_id input.observation.subject_id, subject) in
    rw (owner, generation, same) refl

-- An observation of the ledger's own subject that newly reports it completed or failed is accepted and
-- wakes the model for that reason: the caller owns the ledger, the observation is not the last one
-- again, its state has not been surfaced nor the subject absorbed, and the last record, if there is
-- one, has the same subject and another status. Two states of different
-- status are to have different digests.
pub absorbing-wakes :
    (digests : WaitDigests) (input : AdvanceInput)
    → ((a b : WaitObservationState)
        → digests.state_digest a ≡ digests.state_digest b
        → a.status ≡ b.status)
    → differs input.expected_owner_run_id input.ledger.owner_run_id ≡ false
    → differs input.expected_generation input.ledger.generation ≡ false
    → input.ledger.subject_id ≡ input.observation.subject_id
    → is_duplicate digests input.ledger input.observation ≡ false
    → already_recorded input.ledger (wait_observation_digest digests input.observation) ≡ false
    → is_absorbing_wait_status input.observation.status ≡ true
    → ((p : WaitObservation)
        → previous_observation input.ledger input.observation.subject_id ≡ some p
        → (p.subject_id ≡ input.observation.subject_id) × (p.status ≢ input.observation.status))
    → (advance_wait_ledger digests input ≡ ok (advance_result digests input))
      × ((advance_result digests input).woke_now ≡ true)
      × ((advance_result digests input).wake.reason ≡ absorbing_reason input.observation.status)
absorbing-wakes digests input injective owner generation subject new fresh absorbing moved =
    let (m, r) = fresh_change-Calls digests input injective new absorbing moved in
    let (reason, known) = absorbing_reason-some input.observation.status absorbing in
    let (woke, why) = advance-Calls digests input reason m (r ∙ known) fresh in
    (accepts digests input owner generation subject, woke, why ∙ sym known)

turn_change-Calls :
    (digests : WaitDigests) (input : AdvanceInput) (p : WaitObservation)
    → previous_observation input.ledger input.observation.subject_id ≡ some p
    → p.subject_id ≡ input.observation.subject_id
    → wait_observation_digest digests p ≢ wait_observation_digest digests input.observation
    → is_duplicate digests input.ledger input.observation ≡ false
    → input.ledger.last_native_status ≡ some WaitSubjectStatus.active
    → native_idle input.observation ≡ true
    → ((advance_change digests input.ledger input.observation).meaningful ≡ true)
      × (wake_reason_for_change (advance_change digests input.ledger input.observation)
          ≡ some WaitWakeReason.completion)
unfolding advance_change classify_wait_change changed
turn_change-Calls digests input p before subject moved new active idle =
    let same : not (p.subject_id == input.observation.subject_id) ≡ false =
      ground (arith, string_eq.beq_iff p.subject_id input.observation.subject_id, subject) in
    let other : (wait_observation_digest digests p
          == wait_observation_digest digests input.observation)
        ≡ false =
      beq_ne _ _ moved in
    (
      rw (new, before, same, other, active, idle) refl,
      rw (new, before, same, other, active, idle) refl,
    )

-- A native read that finds the subject idle, where the last native read found it active, is accepted
-- and wakes the model for a completion: the caller owns the ledger, the subject is the ledger's own and
-- that of the last record, whose state has another digest, and the state is neither the last one again
-- nor surfaced already, nor the subject absorbed.
pub native_turn-wakes :
    (digests : WaitDigests) (input : AdvanceInput) (p : WaitObservation)
    → differs input.expected_owner_run_id input.ledger.owner_run_id ≡ false
    → differs input.expected_generation input.ledger.generation ≡ false
    → input.ledger.subject_id ≡ input.observation.subject_id
    → previous_observation input.ledger input.observation.subject_id ≡ some p
    → p.subject_id ≡ input.observation.subject_id
    → wait_observation_digest digests p ≢ wait_observation_digest digests input.observation
    → is_duplicate digests input.ledger input.observation ≡ false
    → already_recorded input.ledger (wait_observation_digest digests input.observation) ≡ false
    → input.ledger.last_native_status ≡ some WaitSubjectStatus.active
    → native_idle input.observation ≡ true
    → (advance_wait_ledger digests input ≡ ok (advance_result digests input))
      × ((advance_result digests input).woke_now ≡ true)
      × ((advance_result digests input).wake.reason ≡ some WaitWakeReason.completion)
native_turn-wakes digests input p owner generation subject before named moved new fresh active
      idle =
    let (m, r) = turn_change-Calls digests input p before named moved new active idle in
    let (woke, why) = advance-Calls digests input WaitWakeReason.completion m r fresh in
    (accepts digests input owner generation subject, woke, why)
