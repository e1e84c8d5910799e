-- ===== src/Wait/Ledger.antt =====
-- src/domain/wait.ts: the durable wait ledger, and the observations that it gives back.
use tachiko_conductor.Prelude.{
  String, string_eq, option_eq, ℕ, Bool, false, ◌&&◌, ◌==◌, Option, none, some, List, [], ◌∷◌,
  get_last?, if◌then◌else◌, nat_eq,
}
use tachiko_conductor.Wait.Observation.{
  WaitObservationSource, source_eq, WaitSubjectStatus, WaitEvidence, WaitObservation,
  WaitObservationState,
}
use tachiko_conductor.Wait.Classify.{WaitChangeKind, change_eq, WaitWakeReason, reason_eq}

-- An identifier of an event is kept as the values that its template joins with colons.
pub record ObservationEventId : Type 0 where
  pub owner_run_id : String
  pub subject_id : String
  pub sequence : ℕ
  pub digest : String

pub record WakeId : Type 0 where
  pub owner_run_id : String
  pub subject_id : String
  pub digest : String
  pub reason : WaitWakeReason
  pub index : ℕ

pub record WaitRecordedObservation : Type 0 where
  pub id : ObservationEventId
  pub at : String
  pub source : WaitObservationSource
  pub subject_id : String
  pub status : WaitSubjectStatus
  pub observation_digest : String
  pub change : WaitChangeKind
  pub state : WaitObservationState

pub record WaitRecordedWake : Type 0 where
  pub id : WakeId
  pub at : String
  pub reason : WaitWakeReason
  pub source : WaitObservationSource
  pub subject_id : String
  pub status : WaitSubjectStatus
  pub observation_digest : String
  pub evidence : List WaitEvidence

-- `terminal_digests` is a list, as every ledger has it that `createWaitLedger` makes.
pub record WaitLedger : Type 0 where
  pub subject_id : String
  pub owner_run_id : String
  pub generation : String
  pub observations : List WaitRecordedObservation
  pub wakes : List WaitRecordedWake
  pub terminal_digests : List String
  pub last_digest : Option String
  pub last_observed_at : Option String
  pub wait_started_at : Option String
  pub terminal_reached : Bool
  pub last_native_identity : Option String
  pub last_native_status : Option WaitSubjectStatus
  pub native_baseline_seen : Bool
  pub previous_was_native : Bool
  pub surfaced_digests : List String
  pub delivered_wake_ids : List WakeId
  pub observation_sequence : ℕ

unfoldable pub create_wait_ledger : (subject_id owner_run_id generation : String) → WaitLedger
create_wait_ledger subject_id owner_run_id generation = record {
  subject_id = subject_id;
  owner_run_id = owner_run_id;
  generation = generation;
  observations = [];
  wakes = [];
  terminal_digests = [];
  last_digest = none;
  last_observed_at = none;
  wait_started_at = none;
  terminal_reached = false;
  last_native_identity = none;
  last_native_status = none;
  native_baseline_seen = false;
  previous_was_native = false;
  surfaced_digests = [];
  delivered_wake_ids = [];
  observation_sequence = 0;
}

-- A recorded observation, as an observation again.
abbrev pub recorded_observation : WaitRecordedObservation → WaitObservation
recorded_observation recorded = record {
  source = recorded.source;
  subject_id = recorded.subject_id;
  status = recorded.status;
  active_item_id = recorded.state.active_item_id;
  progress = record { items = recorded.state.items; turns = recorded.state.turns };
  last_completed_turn_id = recorded.state.last_completed_turn_id;
  head_sha = recorded.state.head_sha;
  evidence = [];
  observed_at = recorded.at;
}

-- The last native read of the subject, from the first record to the last.
abbrev pub last_native : List WaitRecordedObservation → String → Option WaitObservation
last_native [] subject_id = none
last_native (recorded ∷ rest) subject_id =
    let later = last_native rest subject_id in
    elim later [
      | some observation ↦ some observation
      | none ↦
          if recorded.subject_id == subject_id && recorded.source == WaitObservationSource.native
          then some (recorded_observation recorded)
          else none
    ]

abbrev pub last_native_observation : WaitLedger → String → Option WaitObservation
last_native_observation ledger subject_id = last_native ledger.observations subject_id

abbrev pub same_subject : Option WaitRecordedObservation → String → Option WaitObservation
same_subject none subject_id = none
same_subject (some last) subject_id =
    if last.subject_id == subject_id then some (recorded_observation last) else none

-- The state before the observation, from the last durable record.
abbrev pub previous_observation : WaitLedger → String → Option WaitObservation
previous_observation ledger subject_id = same_subject (get_last? ledger.observations) subject_id
