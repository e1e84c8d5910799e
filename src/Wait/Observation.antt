-- ===== src/Wait/Observation.antt =====
-- src/domain/wait.ts: observations, what is kept of them, and the evidence for a change.
use tachiko_conductor.Prelude.{
  String, ℕ, Eq, discrete_eq, Bool, ◌==◌, Option, none, some, List, [], ◌∷◌, any, if◌then◌else◌,
}

pub data WaitObservationSource : Type 0 where
  native runtime subprocess github : WaitObservationSource

abbrev pub WaitObservationSource-discrete : Discrete WaitObservationSource
WaitObservationSource-discrete = hlevel

instance abbrev pub source_eq : Eq WaitObservationSource
source_eq = discrete_eq WaitObservationSource-discrete

pub data WaitSubjectStatus : Type 0 where
  idle active completed failed blocked unknown unavailable : WaitSubjectStatus

abbrev pub WaitSubjectStatus-discrete : Discrete WaitSubjectStatus
WaitSubjectStatus-discrete = hlevel

instance abbrev pub status_eq : Eq WaitSubjectStatus
status_eq = discrete_eq WaitSubjectStatus-discrete

pub data WaitEvidenceKind : Type 0 where
  turn_started turn_completed item_completed head_changed status_changed : WaitEvidenceKind
  progress failure blocked unavailable : WaitEvidenceKind

abbrev pub WaitEvidenceKind-discrete : Discrete WaitEvidenceKind
WaitEvidenceKind-discrete = hlevel

instance abbrev pub kind_eq : Eq WaitEvidenceKind
kind_eq = discrete_eq WaitEvidenceKind-discrete

-- The text of an evidence: one that a provider gives, or one that the module composes, kept as the
-- values that its template names.
pub data EvidenceDetail : Type 0 where
  given : String → EvidenceDetail
  subject_reached : (status : WaitSubjectStatus) → EvidenceDetail
  subject_reported : (subject_id : String) (status : WaitSubjectStatus) → EvidenceDetail
  subject_changed : (subject_id : String) (before after : WaitSubjectStatus) → EvidenceDetail
  native_turn_completed :
      (subject_id : String) (turn_id : Option String) (before after : WaitSubjectStatus)
      → EvidenceDetail
  turn_advanced : (active_phase_unobserved : Bool) (before after : Option String) → EvidenceDetail
  head_moved : (before after : Option String) → EvidenceDetail
  counters : (items_before items_after turns_before turns_after : ℕ) → EvidenceDetail
  active_item_changed : (before after : Option String) → EvidenceDetail
  wait_ended : (timeout_ms : ℕ) (status : WaitSubjectStatus) → EvidenceDetail

pub record WaitEvidence : Type 0 where
  pub kind : WaitEvidenceKind
  pub detail : EvidenceDetail

pub record WaitProgress : Type 0 where
  pub items : ℕ
  pub turns : ℕ

-- `revision`, always the one constant, is left out here and in the ledger.
pub record WaitObservation : Type 0 where
  pub source : WaitObservationSource
  pub subject_id : String
  pub status : WaitSubjectStatus
  pub active_item_id : Option String
  pub progress : WaitProgress
  pub last_completed_turn_id : Option String
  pub head_sha : Option String
  pub evidence : List WaitEvidence
  pub observed_at : String

pub record WaitObservationState : Type 0 where
  pub source : WaitObservationSource
  pub subject_id : String
  pub status : WaitSubjectStatus
  pub active_item_id : Option String
  pub items : ℕ
  pub turns : ℕ
  pub last_completed_turn_id : Option String
  pub head_sha : Option String

pub record WaitSubjectSnapshot : Type 0 where
  pub status : WaitSubjectStatus
  pub active_item_id : Option String
  pub items : Option ℕ
  pub turns : Option ℕ
  pub last_completed_turn_id : Option String
  pub head_sha : Option String
  pub evidence : Option (List WaitEvidence)

pub record WaitObservationInput : Type 0 where
  pub source : WaitObservationSource
  pub subject_id : String
  pub snapshot : WaitSubjectSnapshot
  pub observed_at : String

-- `a ?? b`
abbrev pub value_or {ℓ} : {A : Type ℓ} → Option A → A → A
value_or none b = b
value_or (some a) b = a

-- `a ?? b ?? null`
abbrev pub some_or {ℓ} : {A : Type ℓ} → Option A → Option A → Option A
some_or none b = b
some_or (some a) b = some a

unfoldable pub normalize_wait_observation : WaitObservationInput → WaitObservation
normalize_wait_observation input = record {
  source = input.source;
  subject_id = input.subject_id;
  status = input.snapshot.status;
  active_item_id = input.snapshot.active_item_id;
  progress = record {
    items = value_or input.snapshot.items 0;
    turns = value_or input.snapshot.turns 0;
  };
  last_completed_turn_id = input.snapshot.last_completed_turn_id;
  head_sha = input.snapshot.head_sha;
  evidence = value_or input.snapshot.evidence [];
  observed_at = input.observed_at;
}

abbrev pub wait_observation_state : WaitObservation → WaitObservationState
wait_observation_state observation = record {
  source = observation.source;
  subject_id = observation.subject_id;
  status = observation.status;
  active_item_id = observation.active_item_id;
  items = observation.progress.items;
  turns = observation.progress.turns;
  last_completed_turn_id = observation.last_completed_turn_id;
  head_sha = observation.head_sha;
}

-- The SHA-256 digests of Node's crypto module, of a normalized state and of sorted evidence.
pub record WaitDigests : Type 0 where
  pub state_digest : WaitObservationState → String
  pub evidence_digest : List WaitEvidence → String

abbrev pub wait_observation_digest : WaitDigests → WaitObservation → String
wait_observation_digest digests observation =
    digests.state_digest (wait_observation_state observation)

abbrev pub status_evidence : WaitSubjectStatus → List WaitEvidence
status_evidence WaitSubjectStatus.completed =
    record {
      kind = WaitEvidenceKind.turn_completed;
      detail = EvidenceDetail.subject_reached WaitSubjectStatus.completed;
    }
    ∷ []
status_evidence WaitSubjectStatus.failed =
    record {
      kind = WaitEvidenceKind.failure;
      detail = EvidenceDetail.subject_reached WaitSubjectStatus.failed;
    }
    ∷ []
status_evidence WaitSubjectStatus.blocked =
    record {
      kind = WaitEvidenceKind.blocked;
      detail = EvidenceDetail.subject_reached WaitSubjectStatus.blocked;
    }
    ∷ []
status_evidence WaitSubjectStatus.unavailable =
    record {
      kind = WaitEvidenceKind.unavailable;
      detail = EvidenceDetail.subject_reached WaitSubjectStatus.unavailable;
    }
    ∷ []
status_evidence WaitSubjectStatus.active =
    record {
      kind = WaitEvidenceKind.progress;
      detail = EvidenceDetail.subject_reached WaitSubjectStatus.active;
    }
    ∷ []
status_evidence _ = []

abbrev pub evidence_or_status : List WaitEvidence → WaitSubjectStatus → List WaitEvidence
evidence_or_status [] status = status_evidence status
evidence_or_status (e ∷ es) status = e ∷ es

abbrev pub reported_evidence : WaitObservation → List WaitEvidence
reported_evidence observation = evidence_or_status observation.evidence observation.status

-- The first evidence of each kind that is not among those seen.
abbrev pub first_of_kind : List WaitEvidenceKind → List WaitEvidence → List WaitEvidence
first_of_kind seen [] = []
first_of_kind seen (item ∷ rest) =
    let skipped = first_of_kind seen rest in
    let kept = first_of_kind (item.kind ∷ seen) rest in
    if any (λ kind. kind == item.kind) seen then skipped else item ∷ kept

abbrev pub dedupe_evidence : List WaitEvidence → List WaitEvidence
dedupe_evidence evidence = first_of_kind [] evidence

abbrev pub transition_evidence :
    WaitObservation → WaitEvidenceKind → EvidenceDetail → List WaitEvidence
transition_evidence next kind detail =
    dedupe_evidence (record { kind = kind; detail = detail } ∷ reported_evidence next)

abbrev pub terminal_evidence : WaitObservation → WaitEvidenceKind → List WaitEvidence
terminal_evidence observation kind = dedupe_evidence (
    record {
      kind = kind;
      detail = EvidenceDetail.subject_reported observation.subject_id observation.status;
    }
    ∷ reported_evidence observation)
