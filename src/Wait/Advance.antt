-- ===== src/Wait/Advance.antt =====
-- src/domain/wait.ts: how one observation advances the wait ledger.
use tachiko_conductor.Prelude.{
  String, string_eq, option_eq, ℕ, ◌+◌, Bool, true, false, not, ◌&&◌, ◌||◌, ◌==◌, Option, none,
  some, [], ◌∷◌, ◌++◌, any, includes, take_last, length, if◌then◌else◌, Result, ok, ◌>>◌, reject,
  nat_eq,
}
use tachiko_conductor.Wait.Observation.{
  WaitObservationSource, source_eq, WaitObservation, WaitDigests, value_or, some_or,
  wait_observation_state, wait_observation_digest,
}
use tachiko_conductor.Wait.Classify.{
  WaitChangeKind, change_eq, WaitChange, WaitWakeReason, reason_eq, WaitWakeDecision,
  WaitWakePolicy, no_change, no_wake, classify_wait_change, decide_wait_wake,
  is_absorbing_wait_status, is_terminal_wait_observation,
}
use tachiko_conductor.Wait.Ledger.{
  ObservationEventId, WaitRecordedObservation, WaitRecordedWake, WaitLedger,
  last_native_observation, previous_observation,
}

-- What `advanceWaitLedger` throws.
pub data WaitLedgerError : Type 0 where
  foreign_owner foreign_generation foreign_subject : WaitLedgerError

pub record AdvanceInput : Type 0 where
  pub ledger : WaitLedger
  pub observation : WaitObservation
  pub at : String
  pub policy : WaitWakePolicy
  pub timed_out : Bool
  pub expected_owner_run_id : Option String
  pub expected_generation : Option String

pub record WaitLedgerAdvance : Type 0 where
  pub ledger : WaitLedger
  pub change : WaitChange
  pub wake : WaitWakeDecision
  pub duplicate : Bool
  pub woke_now : Bool
  pub previous_native : Option WaitObservation
  pub observation_event_id : ObservationEventId

abbrev pub max_surfaced_digests : ℕ
max_surfaced_digests = 500

-- `expected !== undefined && expected !== actual`
abbrev pub differs : Option String → String → Bool
differs none actual = false
differs (some expected) actual = not (expected == actual)

abbrev pub is_duplicate : WaitDigests → WaitLedger → WaitObservation → Bool
is_duplicate digests ledger observation =
    ledger.last_digest == some (wait_observation_digest digests observation)

-- `change`, with the comparison that leads to it.
unfoldable pub advance_change : WaitDigests → WaitLedger → WaitObservation → WaitChange
advance_change digests ledger observation =
    if is_duplicate digests ledger observation
    then no_change
    else classify_wait_change digests (previous_observation ledger observation.subject_id)
        observation (last_native_observation ledger observation.subject_id)
        (record {
          last_native_identity = ledger.last_native_identity;
          last_native_status = ledger.last_native_status;
          native_baseline_seen = ledger.native_baseline_seen;
          previous_was_native = ledger.previous_was_native;
        })

abbrev pub is_terminal_reason : Option WaitWakeReason → Bool
is_terminal_reason none = false
is_terminal_reason (some WaitWakeReason.timeout_policy) = false
is_terminal_reason (some _) = true

abbrev pub has_wake : WaitLedger → String → Bool
has_wake ledger digest = any (λ wake. wake.observation_digest == digest) ledger.wakes

-- `alreadyRecorded` for a decision to wake.
unfoldable pub already_recorded : WaitLedger → String → Bool
already_recorded ledger digest =
    ledger.terminal_reached
    || includes digest ledger.terminal_digests
    || includes digest ledger.surfaced_digests
    || has_wake ledger digest

-- The wake that is recorded for a decision.
abbrev pub wake_record : WaitDigests → AdvanceInput → WaitWakeDecision → WaitRecordedWake
wake_record digests input decision =
    let digest = wait_observation_digest digests input.observation in
    let reason = value_or decision.reason WaitWakeReason.terminal in
    record {
      id = record {
        owner_run_id = input.ledger.owner_run_id;
        subject_id = input.observation.subject_id;
        digest = digest;
        reason = reason;
        index = length input.ledger.wakes;
      };
      at = input.at;
      reason = reason;
      source = input.observation.source;
      subject_id = input.observation.subject_id;
      status = input.observation.status;
      observation_digest = digest;
      evidence = decision.evidence;
    }

abbrev pub next_sequence : AdvanceInput → ℕ
next_sequence input = input.ledger.observation_sequence + 1

abbrev pub observation_event_id : WaitDigests → AdvanceInput → ObservationEventId
observation_event_id digests input = record {
  owner_run_id = input.ledger.owner_run_id;
  subject_id = input.observation.subject_id;
  sequence = next_sequence input;
  digest = wait_observation_digest digests input.observation;
}

abbrev pub observation_record : WaitDigests → AdvanceInput → WaitRecordedObservation
observation_record digests input = record {
  id = observation_event_id digests input;
  at = input.at;
  source = input.observation.source;
  subject_id = input.observation.subject_id;
  status = input.observation.status;
  observation_digest = wait_observation_digest digests input.observation;
  change = (advance_change digests input.ledger input.observation).kind;
  state = wait_observation_state input.observation;
}

-- `decision` and `wokeNow`
unfoldable pub advance_decision : WaitDigests → AdvanceInput → WaitWakeDecision
advance_decision digests input =
    decide_wait_wake (advance_change digests input.ledger input.observation) input.observation
      input.timed_out input.policy input.ledger.terminal_reached

unfoldable pub advance_woke_now : WaitDigests → AdvanceInput → Bool
advance_woke_now digests input =
    (advance_decision digests input).should_wake
    && not (already_recorded input.ledger (wait_observation_digest digests input.observation))

-- `nextLedger`
unfoldable pub next_ledger : WaitDigests → AdvanceInput → WaitLedger
next_ledger digests input =
    let ledger = input.ledger in
    let observation = input.observation in
    let digest = wait_observation_digest digests observation in
    let duplicate = is_duplicate digests ledger observation in
    let change = advance_change digests ledger observation in
    let decision = advance_decision digests input in
    let woke_now = advance_woke_now digests input in
    let native = observation.source == WaitObservationSource.native in
    record ledger {
      observations =
          if duplicate
          then ledger.observations
          else ledger.observations ++ observation_record digests input ∷ [];
      wakes =
          if woke_now
          then ledger.wakes ++ wake_record digests input decision ∷ []
          else ledger.wakes;
      terminal_digests =
          if decision.should_wake
            && is_terminal_reason decision.reason
            && not (includes digest ledger.terminal_digests)
          then ledger.terminal_digests ++ digest ∷ []
          else ledger.terminal_digests;
      surfaced_digests =
          if woke_now && not (includes digest ledger.surfaced_digests)
          then take_last max_surfaced_digests (ledger.surfaced_digests ++ digest ∷ [])
          else ledger.surfaced_digests;
      terminal_reached =
          ledger.terminal_reached || (not duplicate && is_absorbing_wait_status observation.status);
      last_native_identity =
          if native
          then some_or observation.last_completed_turn_id ledger.last_native_identity
          else ledger.last_native_identity;
      last_native_status = if native then some observation.status else ledger.last_native_status;
      native_baseline_seen = ledger.native_baseline_seen || (not duplicate && native);
      previous_was_native = if duplicate then ledger.previous_was_native else native;
      observation_sequence = next_sequence input;
      last_digest = some digest;
      last_observed_at = some input.at;
      wait_started_at =
          if not (is_terminal_wait_observation observation)
            && change.kind == WaitChangeKind.unchanged
          then some (value_or ledger.wait_started_at input.at)
          else none;
    }

-- What `advanceWaitLedger` returns where it does not throw.
unfoldable pub advance_result : WaitDigests → AdvanceInput → WaitLedgerAdvance
advance_result digests input =
    let ledger = input.ledger in
    let observation = input.observation in
    let duplicate = is_duplicate digests ledger observation in
    let woke_now = advance_woke_now digests input in
    record {
      ledger = next_ledger digests input;
      change = advance_change digests ledger observation;
      wake = if woke_now then advance_decision digests input else no_wake;
      duplicate = duplicate;
      woke_now = woke_now;
      previous_native =
          some_or
            (if duplicate then none else last_native_observation ledger observation.subject_id)
            (if observation.source == WaitObservationSource.native then some observation else none);
      observation_event_id = observation_event_id digests input;
    }

unfoldable pub advance_wait_ledger :
    WaitDigests → AdvanceInput → Result WaitLedgerError WaitLedgerAdvance
unfolding advance_result
advance_wait_ledger digests input =
    let ledger = input.ledger in
    reject (differs input.expected_owner_run_id ledger.owner_run_id) WaitLedgerError.foreign_owner
    >> reject (differs input.expected_generation ledger.generation)
        WaitLedgerError.foreign_generation
    >> reject (not (ledger.subject_id == input.observation.subject_id))
        WaitLedgerError.foreign_subject
    >> ok (advance_result digests input)
