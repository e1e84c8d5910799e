-- ===== src/Wait/Classify.antt =====
-- src/domain/wait.ts: what one observation changes after another, and whether the change wakes the
-- model. Of `classifyWaitChange`'s optional arguments the ones that the ledger passes are given, so
-- that no default is taken.
use tachiko_conductor.Prelude.{
  String, string_eq, option_eq, ℕ, ltb, Eq, discrete_eq, Bool, true, false, not, ◌&&◌, ◌||◌, ◌==◌,
  Option, none, some, List, [], ◌∷◌, if◌then◌else◌,
}
use tachiko_conductor.Wait.Observation.{
  WaitObservationSource, source_eq, WaitSubjectStatus, status_eq, WaitEvidenceKind, EvidenceDetail,
  WaitEvidence, WaitObservation, WaitDigests, wait_observation_digest, evidence_or_status,
  transition_evidence, terminal_evidence,
}

pub data WaitChangeKind : Type 0 where
  unchanged progress completion failure blocked : WaitChangeKind

abbrev pub WaitChangeKind-discrete : Discrete WaitChangeKind
WaitChangeKind-discrete = hlevel

instance abbrev pub change_eq : Eq WaitChangeKind
change_eq = discrete_eq WaitChangeKind-discrete

pub record WaitChange : Type 0 where
  pub kind : WaitChangeKind
  pub meaningful : Bool
  pub evidence : List WaitEvidence

pub data WaitWakeReason : Type 0 where
  completion failure blocked terminal timeout_policy : WaitWakeReason

abbrev pub WaitWakeReason-discrete : Discrete WaitWakeReason
WaitWakeReason-discrete = hlevel

instance abbrev pub reason_eq : Eq WaitWakeReason
reason_eq = discrete_eq WaitWakeReason-discrete

pub record WaitWakeDecision : Type 0 where
  pub should_wake : Bool
  pub reason : Option WaitWakeReason
  pub evidence : List WaitEvidence

pub data OnTimeout : Type 0 where
  continue policy_action : OnTimeout

abbrev pub OnTimeout-discrete : Discrete OnTimeout
OnTimeout-discrete = hlevel

instance abbrev pub on_timeout_eq : Eq OnTimeout
on_timeout_eq = discrete_eq OnTimeout-discrete

pub record WaitWakePolicy : Type 0 where
  pub timeout_ms : ℕ
  pub on_timeout : OnTimeout

abbrev pub default_wait_wake_policy : WaitWakePolicy
default_wait_wake_policy = record { timeout_ms = 900_000; on_timeout = OnTimeout.continue }

pub record WaitNativeBoundary : Type 0 where
  pub last_native_identity : Option String
  pub last_native_status : Option WaitSubjectStatus
  pub native_baseline_seen : Bool
  pub previous_was_native : Bool

abbrev pub no_change : WaitChange
no_change = record { kind = WaitChangeKind.unchanged; meaningful = false; evidence = [] }

abbrev pub progress_change : List WaitEvidence → WaitChange
progress_change evidence = record {
  kind = WaitChangeKind.progress;
  meaningful = true;
  evidence = evidence;
}

-- The change to a completed, failed or blocked status, or else the change that is given.
abbrev pub terminal_status_change : WaitSubjectStatus → WaitObservation → WaitChange → WaitChange
terminal_status_change WaitSubjectStatus.completed next otherwise = record {
  kind = WaitChangeKind.completion;
  meaningful = true;
  evidence = terminal_evidence next WaitEvidenceKind.turn_completed;
}
terminal_status_change WaitSubjectStatus.failed next otherwise = record {
  kind = WaitChangeKind.failure;
  meaningful = true;
  evidence = terminal_evidence next WaitEvidenceKind.failure;
}
terminal_status_change WaitSubjectStatus.blocked next otherwise = record {
  kind = WaitChangeKind.blocked;
  meaningful = true;
  evidence = terminal_evidence next WaitEvidenceKind.blocked;
}
terminal_status_change _ next otherwise = otherwise

abbrev pub terminal_change : WaitObservation → WaitChange → WaitChange
terminal_change next otherwise = terminal_status_change next.status next otherwise

-- `next.status !== previous.status`
abbrev pub status_change : WaitObservation → WaitObservation → WaitChange
status_change previous next =
    let detail = EvidenceDetail.subject_changed next.subject_id previous.status next.status in
    terminal_change next (
      if next.status == WaitSubjectStatus.unavailable
      then progress_change (transition_evidence next WaitEvidenceKind.unavailable detail)
      else progress_change (transition_evidence next WaitEvidenceKind.status_changed detail))

-- `turnIdentityAdvanced`
abbrev pub turn_identity_advanced : WaitObservation → WaitNativeBoundary → Bool
turn_identity_advanced next boundary = elim next.last_completed_turn_id [
  | none ↦ false
  | some turn_id ↦ not (some turn_id == boundary.last_native_identity)
]

abbrev pub one : WaitEvidenceKind → EvidenceDetail → List WaitEvidence
one kind detail = record { kind = kind; detail = detail } ∷ []

-- The change between two observations of one status.
abbrev pub same_status_change :
    WaitDigests → WaitObservation → WaitObservation → WaitNativeBoundary → WaitChange
same_status_change digests previous next boundary =
    if not (next.head_sha == previous.head_sha)
    then progress_change (
        record {
          kind = WaitEvidenceKind.head_changed;
          detail = EvidenceDetail.head_moved previous.head_sha next.head_sha;
        }
        ∷ next.evidence)
    else if turn_identity_advanced next boundary
    then progress_change (
        one WaitEvidenceKind.turn_completed (
          EvidenceDetail.turn_advanced false previous.last_completed_turn_id
            next.last_completed_turn_id))
    else if ltb previous.progress.items next.progress.items
        || ltb previous.progress.turns next.progress.turns
    then progress_change (
        one WaitEvidenceKind.progress (
          EvidenceDetail.counters previous.progress.items next.progress.items
            previous.progress.turns next.progress.turns))
    else if not (previous.active_item_id == next.active_item_id)
    then progress_change (
        one WaitEvidenceKind.item_completed
          (EvidenceDetail.active_item_changed previous.active_item_id next.active_item_id))
    else if not (digests.evidence_digest previous.evidence == digests.evidence_digest next.evidence)
    then progress_change (evidence_or_status next.evidence next.status)
    else no_change

-- `nativeBoundary.lastNativeStatus ?? nativeBefore?.status ?? null`
abbrev pub last_native_status :
    WaitNativeBoundary → Option WaitObservation → Option WaitSubjectStatus
last_native_status boundary native_before = elim boundary.last_native_status [
  | some status ↦ some status
  | none ↦ elim native_before [ none ↦ none | some observation ↦ some observation.status ]
]

-- A native read finds the subject idle.
abbrev pub native_idle : WaitObservation → Bool
native_idle next =
    next.source == WaitObservationSource.native && next.status == WaitSubjectStatus.idle

unfoldable pub changed :
    WaitDigests
    → WaitObservation
    → WaitObservation
    → Option WaitObservation
    → WaitNativeBoundary
    → WaitChange
changed digests previous next previous_native boundary =
    if (last_native_status boundary previous_native == some WaitSubjectStatus.active)
      && native_idle next
    then record {
      kind = WaitChangeKind.completion;
      meaningful = true;
      evidence = transition_evidence next WaitEvidenceKind.turn_completed (
          EvidenceDetail.native_turn_completed next.subject_id next.last_completed_turn_id
            WaitSubjectStatus.active next.status);
    }
    else if native_idle next
        && turn_identity_advanced next boundary
        && boundary.native_baseline_seen
    then record {
      kind = WaitChangeKind.completion;
      meaningful = true;
      evidence = one WaitEvidenceKind.turn_completed (
          EvidenceDetail.turn_advanced true previous.last_completed_turn_id
            next.last_completed_turn_id);
    }
    else if not (next.status == previous.status)
    then status_change previous next
    else same_status_change digests previous next boundary

unfoldable pub classify_wait_change :
    WaitDigests
    → Option WaitObservation
    → WaitObservation
    → Option WaitObservation
    → WaitNativeBoundary
    → WaitChange
classify_wait_change digests none next previous_native boundary = terminal_change next no_change
classify_wait_change digests (some previous) next previous_native boundary =
    if not (previous.subject_id == next.subject_id)
    then no_change
    else if wait_observation_digest digests previous == wait_observation_digest digests next
    then no_change
    else changed digests previous next previous_native boundary

abbrev pub wake_reason_for_change : WaitChange → Option WaitWakeReason
wake_reason_for_change change = elim change.kind [
  | WaitChangeKind.completion ↦ some WaitWakeReason.completion
  | WaitChangeKind.failure ↦ some WaitWakeReason.failure
  | WaitChangeKind.blocked ↦ some WaitWakeReason.blocked
  | _ ↦ none
]

abbrev pub is_absorbing_wait_status : WaitSubjectStatus → Bool
is_absorbing_wait_status status =
    status == WaitSubjectStatus.completed || status == WaitSubjectStatus.failed

abbrev pub is_terminal_wait_observation : WaitObservation → Bool
is_terminal_wait_observation observation =
    observation.status == WaitSubjectStatus.completed
    || observation.status == WaitSubjectStatus.failed
    || observation.status == WaitSubjectStatus.blocked

abbrev pub no_wake : WaitWakeDecision
no_wake = record { should_wake = false; reason = none; evidence = [] }

abbrev pub decide_timeout : WaitObservation → Bool → WaitWakePolicy → Bool → WaitWakeDecision
decide_timeout observation timed_out policy terminal_reached =
    if timed_out && policy.on_timeout == OnTimeout.policy_action && not terminal_reached
    then record {
      should_wake = true;
      reason = some WaitWakeReason.timeout_policy;
      evidence =
          one WaitEvidenceKind.progress
            (EvidenceDetail.wait_ended policy.timeout_ms observation.status);
    }
    else no_wake

-- The decision to wake for a meaningful change that has a reason, or else the one that is given.
abbrev pub decide_change : Option WaitWakeReason → WaitChange → WaitWakeDecision → WaitWakeDecision
decide_change none change otherwise = otherwise
decide_change (some reason) change otherwise =
    if change.meaningful
    then record { should_wake = true; reason = some reason; evidence = change.evidence }
    else otherwise

-- The three tests of the kind in the condition, and the use of the kind as the reason, are
-- `wake_reason_for_change`.
unfoldable pub decide_wait_wake :
    WaitChange → WaitObservation → Bool → WaitWakePolicy → Bool → WaitWakeDecision
decide_wait_wake change observation timed_out policy terminal_reached =
    decide_change (wake_reason_for_change change) change
      (decide_timeout observation timed_out policy terminal_reached)
