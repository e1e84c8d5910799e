-- ===== src/Wait/Migration.antt =====
-- src/domain/wait.ts: a wait ledger as it is persisted, and its adoption, which every read of the store
-- makes. An absent field is `none`.
use tachiko_conductor.Prelude.{
  String, string_eq, ℕ, Bool, false, ◌&&◌, ◌||◌, ◌==◌, ltb, Option, none, some, List, [], ◌∷◌, ◌++◌,
  any, map, filter_by, get_last?, take_last, if◌then◌else◌,
}
use tachiko_conductor.Wait.Observation.{
  WaitObservationSource, source_eq, WaitSubjectStatus, status_eq, value_or, some_or,
}
use tachiko_conductor.Wait.Classify.{is_absorbing_wait_status}
use tachiko_conductor.Wait.Ledger.{WakeId, WaitRecordedObservation, WaitRecordedWake, WaitLedger}
use tachiko_conductor.Wait.Advance.{max_surfaced_digests, is_terminal_reason}
use tachiko_conductor.Wait.Delivery.{distinct, wake_id_eq}

-- For the native identity and status, `null` and an absent field are both `none`: what reads them does
-- not tell them apart.
pub record StoredWaitLedger : Type 0 where
  pub subject_id : String
  pub owner_run_id : String
  pub generation : String
  pub observations : List WaitRecordedObservation
  pub wakes : List WaitRecordedWake
  pub terminal_digests : Option (List String)
  pub last_digest : Option String
  pub last_observed_at : Option String
  pub wait_started_at : Option String
  pub terminal_reached : Option Bool
  pub last_native_identity : Option String
  pub last_native_status : Option WaitSubjectStatus
  pub native_baseline_seen : Option Bool
  pub previous_was_native : Option Bool
  pub surfaced_digests : Option (List String)
  pub delivered_wake_ids : Option (List WakeId)
  pub observation_sequence : Option ℕ

-- The ledger as `write` hands it to `JSON.stringify`, with every field present.
unfoldable pub stored : WaitLedger → StoredWaitLedger
stored ledger = record {
  subject_id = ledger.subject_id;
  owner_run_id = ledger.owner_run_id;
  generation = ledger.generation;
  observations = ledger.observations;
  wakes = ledger.wakes;
  terminal_digests = some ledger.terminal_digests;
  last_digest = ledger.last_digest;
  last_observed_at = ledger.last_observed_at;
  wait_started_at = ledger.wait_started_at;
  terminal_reached = some ledger.terminal_reached;
  last_native_identity = ledger.last_native_identity;
  last_native_status = ledger.last_native_status;
  native_baseline_seen = some ledger.native_baseline_seen;
  previous_was_native = some ledger.previous_was_native;
  surfaced_digests = some ledger.surfaced_digests;
  delivered_wake_ids = some ledger.delivered_wake_ids;
  observation_sequence = some ledger.observation_sequence;
}

-- The condition of `terminalWakes`
abbrev pub is_terminal_wake : WaitRecordedWake → Bool
is_terminal_wake wake =
    is_terminal_reason (some wake.reason)
    && (is_absorbing_wait_status wake.status || wake.status == WaitSubjectStatus.blocked)

-- `absorbingWakes`
unfoldable pub absorbing_wakes : List WaitRecordedWake → Bool
absorbing_wakes wakes =
    any (λ wake. is_absorbing_wait_status wake.status) (filter_by is_terminal_wake wakes)

-- `lastNative`
abbrev pub last_native_record : List WaitRecordedObservation → Option WaitRecordedObservation
last_native_record observations =
    get_last? (filter_by (λ recorded. recorded.source == WaitObservationSource.native) observations)

-- The sequence number that the identifiers of the observations reach.
abbrev pub highest_sequence : ℕ → List WaitRecordedObservation → ℕ
highest_sequence highest [] = highest
highest_sequence highest (recorded ∷ rest) =
    let parsed = recorded.id.sequence in
    highest_sequence (if ltb parsed 9007199254740992 && ltb highest parsed then parsed else highest)
      rest

abbrev pub record_identity : Option WaitRecordedObservation → Option String
record_identity none = none
record_identity (some recorded) = recorded.state.last_completed_turn_id

abbrev pub record_status : Option WaitRecordedObservation → Option WaitSubjectStatus
record_status none = none
record_status (some recorded) = some recorded.status

abbrev pub record_is_native : Option WaitRecordedObservation → Bool
record_is_native none = false
record_is_native (some recorded) = recorded.source == WaitObservationSource.native

unfoldable pub migrate_wait_ledger : StoredWaitLedger → WaitLedger
unfolding absorbing_wakes
migrate_wait_ledger value =
    let native = last_native_record value.observations in
    record {
      subject_id = value.subject_id;
      owner_run_id = value.owner_run_id;
      generation = value.generation;
      observations = value.observations;
      wakes = value.wakes;
      terminal_digests = distinct [] (
          value_or value.terminal_digests []
          ++ map (λ wake. wake.observation_digest) (filter_by is_terminal_wake value.wakes));
      last_digest = value.last_digest;
      last_observed_at = value.last_observed_at;
      wait_started_at = value.wait_started_at;
      terminal_reached = absorbing_wakes value.wakes;
      last_native_identity = some_or value.last_native_identity (record_identity native);
      last_native_status = some_or value.last_native_status (record_status native);
      native_baseline_seen =
          value_or value.native_baseline_seen
            (any (λ recorded. recorded.source == WaitObservationSource.native) value.observations);
      previous_was_native =
          value_or value.previous_was_native (record_is_native (get_last? value.observations));
      surfaced_digests = value_or value.surfaced_digests (
          take_last max_surfaced_digests
            (distinct [] (map (λ wake. wake.observation_digest) value.wakes)));
      delivered_wake_ids = value_or value.delivered_wake_ids (map (λ wake. wake.id) value.wakes);
      observation_sequence =
          value_or value.observation_sequence (highest_sequence 0 value.observations);
    }
