-- ===== src/Wait/Timeout.antt =====
-- src/workflow/wait-observation.ts, `recordWake`: the wake that is recorded when a wait times out.
use tachiko_conductor.Prelude.{
  String, string_eq, Bool, not, ◌&&◌, ◌||◌, ◌==◌, [], ◌∷◌, ◌++◌, any, includes, take_last, length,
  if◌then◌else◌,
}
use tachiko_conductor.Wait.Observation.{
  WaitObservation, WaitDigests, value_or, wait_observation_digest,
}
use tachiko_conductor.Wait.Classify.{WaitWakeReason, WaitWakeDecision, no_wake}
use tachiko_conductor.Wait.Ledger.{WaitRecordedWake, WaitLedger}
use tachiko_conductor.Wait.Advance.{max_surfaced_digests}

-- What `awaitMeaningfulChange` reads of the answer.
pub record RecordedWake : Type 0 where
  pub ledger : WaitLedger
  pub wake : WaitWakeDecision

-- `alreadyRecorded` of `recordWake`
unfoldable pub timeout_recorded : WaitLedger → (digest : String) → Bool
timeout_recorded ledger digest =
    ledger.terminal_reached
    || includes digest ledger.terminal_digests
    || includes digest ledger.surfaced_digests
    || any (λ wake. wake.observation_digest == digest) ledger.wakes

abbrev pub timeout_wake :
    WaitDigests → WaitLedger → WaitObservation → (at : String) → WaitWakeDecision → WaitRecordedWake
timeout_wake digests ledger observation at decision =
    let digest = wait_observation_digest digests observation in
    let reason = value_or decision.reason WaitWakeReason.terminal in
    record {
      id = record {
        owner_run_id = ledger.owner_run_id;
        subject_id = observation.subject_id;
        digest = digest;
        reason = reason;
        index = length ledger.wakes;
      };
      at = at;
      reason = reason;
      source = observation.source;
      subject_id = observation.subject_id;
      status = observation.status;
      observation_digest = digest;
      evidence = decision.evidence;
    }

-- `recordWake`
unfoldable pub record_wake :
    WaitDigests → WaitLedger → WaitObservation → (at : String) → WaitWakeDecision → RecordedWake
unfolding timeout_recorded
record_wake digests ledger observation at decision =
    let digest = wait_observation_digest digests observation in
    let wakes_now = decision.should_wake && not (timeout_recorded ledger digest) in
    record {
      ledger = record ledger {
        wakes =
            if wakes_now
            then ledger.wakes ++ timeout_wake digests ledger observation at decision ∷ []
            else ledger.wakes;
        surfaced_digests =
            if wakes_now && not (includes digest ledger.surfaced_digests)
            then take_last max_surfaced_digests (ledger.surfaced_digests ++ digest ∷ [])
            else ledger.surfaced_digests;
      };
      wake = if wakes_now then decision else no_wake;
    }
