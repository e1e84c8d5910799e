-- ===== src/Tests/Admissions.antt =====
-- A captain that is admitted to an empty registry.
use tachiko_conductor.Prelude.{ℕ}
use tachiko_conductor.Prelude.{
  String, string_eq, ◌<◌, nat_eq, option_eq, bool_eq, true, false, none, some, List, [], ◌∷◌, ◌≡◌,
  refl, ap, subst, ◌⊎◌, inl, inr, ok, ◌==◌, if◌then◌else◌, arith, trim, is_blank,
}
use tachiko_conductor.Admission.Types.{
  MissionAdmissionRole, MissionAdmissionStatus, MissionEvidence, AdmissionToken, AdmissionRequest,
  AdmissionResult, LaneRecord, RegistryState, role_eq, lane_status_eq,
}
use tachiko_conductor.Admission.Platform.{
  Platform, HasParents, text_length, climb, climb-Finds, canonical_path, canonical_repository,
}
use tachiko_conductor.Admission.Evidence.{
  canonicalize_mission_evidence, evidence_is_valid, deterministic_mission_id, experiment_mission_id,
  shared_physical_surface, overlaps, surfaces, contains,
}
use tachiko_conductor.Admission.State.{
  validate_admission_config, validate_lane, validate_state, check_pair, check_delegate,
  all_distinct, all_pairs, writer_missions, high_autonomy_missions,
}
use tachiko_conductor.Admission.Transact.{
  RegistryFile, missing, present, Ports, Hooks, transact, read_state, initial_state,
  assert_authority, publish, finalize, settle, attempt, replace_lane, put_lane, token_record,
  current_of, require_current_token, assert_no_active_delegates,
}
use tachiko_conductor.Admission.Admit.{
  capacity_reason, check_request, check_prior, check_owner, owner_of,
}
use tachiko_conductor.Admission.Candidate.{
  admit, admit_checked, admit_step, answer_candidate, candidate_lane, candidate_evidence,
  mission_id_of, unless_duplicate, grant, granted, shares_experiment, conflicts_with,
}
use tachiko_conductor.Admission.Operations.{renew_step, renew_lane}
use tachiko_conductor.Admission.Api.{renew, assert_can_mutate, check_mutation}
use tachiko_conductor.Admission.History.{Runs, done, after, admits, renews}
use tachiko_conductor.Admission.Operations.{release_step, release_lane}
use tachiko_conductor.Admission.Api.{release, after_checks}
use tachiko_conductor.Admission.Transact.{detached_lane_view}
use tachiko_conductor.Admission.Revoked.{release-revokes}
use tachiko_conductor.Admission.Evidence.{Checked}
use tachiko_conductor.Admission.Fenced.{Owns, fenced}
use tachiko_conductor.Admission.Exclusion.{exclusive}
use tachiko_conductor.Admission.Capacity.{IsWithinLimits, Runs-IsWithinLimits}
use tachiko_conductor.Admission.Granted.{admit-Owns}

-- Paths of one character for each directory, the leaf first; none of them exists.
abbrev parent : String → String
parent String.[] = String.[]
parent (String.◌∷◌ c cs) = cs

abbrev platform : Platform
platform = record {
  to_lower_case = λ text. text;
  is_windows = false;
  is_absolute = λ _. true;
  resolve = λ path. path;
  normalize = λ path. path;
  dirname = parent;
  basename = λ path. path;
  join = λ directory _. directory;
  relative = λ from to. if from == to then "" else "../x";
  parent_prefix = "../";
  exists = λ _. false;
  realpath = λ path. path;
  digest = λ _. "d";
}

platform-HasParents : HasParents platform
platform-HasParents = record { absolute = λ _ _. refl; shorter = shorter }
  where
    shorter :
        (path : String)
        → platform.is_absolute path ≡ true
        → (platform.dirname path ≡ path) ⊎ (text_length (platform.dirname path) < text_length path)
    shorter String.[] h = inl refl
    shorter (String.◌∷◌ c cs) h = inr (omega arith)

climb-Finds_example :
    (ancestor : String) × (names : List String) × (climb platform 4 "/w" []
      ≡ some (ancestor, names))
    × ((platform.exists ancestor ≡ true) ⊎ (platform.dirname ancestor ≡ ancestor))
climb-Finds_example = climb-Finds platform platform-HasParents 4 "/w" [] refl (omega arith)

abbrev pub ports : Ports
ports = record {
  config = record {
    revision = "1";
    limits = record {
      max_captains = 1;
      max_writers = 1;
      max_high_autonomy = 1;
      max_per_repository = none;
    };
  };
  assert_ordinary_mutation = λ _. ok tt;
  before_publish = ok tt;
}

abbrev hooks : {A : Type 0} → Hooks A
hooks = record {
  before_state_publish = λ _. ok tt;
  after_publish = none;
  validate_before_publish = λ _. ok tt;
  before_state_publish_on_noop = false;
  owned_cleanup = false;
}

abbrev evidence : MissionEvidence
evidence = record {
  repository = "o/r";
  issue = some 7;
  pull_request = none;
  run = none;
  claim = none;
  workspace = some "/w";
  state_surface = none;
  repository_scope = false;
}

abbrev request : AdmissionRequest
request = record {
  lane_id = "run:1";
  evidence = evidence;
  role = MissionAdmissionRole.production_captain;
  high_autonomy = none;
  delegated_from_lane_id = none;
  delegated_from_token = none;
  experiment_of_mission_id = none;
}

abbrev token : AdmissionToken
token = record { lane_id = "run:1"; generation = 1; token = "t1" }

abbrev pub captain : LaneRecord
captain = record {
  lane_id = "run:1";
  mission_id = "mission-d";
  evidence = evidence;
  role = MissionAdmissionRole.production_captain;
  status = MissionAdmissionStatus.active;
  generation = 1;
  token = some "t1";
  high_autonomy = false;
  delegated_from_lane_id = none;
  delegated_from_generation = none;
  experiment_of_mission_id = none;
  parked_reason = none;
  updated_at = "now";
}

abbrev registry : RegistryState
registry = record {
  revision = 1;
  config = ports.config;
  lanes = captain ∷ [];
  last_transition = some (record { kind = "admitted"; lane_id = some "run:1"; at_time = "now" });
}

canonical : canonicalize_mission_evidence platform evidence ≡ ok evidence
unfolding canonicalize_mission_evidence canonical_repository canonical_path climb trim is_blank
canonical = refl

registry_valid : validate_state platform registry ≡ ok tt
unfolding validate_state validate_admission_config validate_lane evidence_is_valid
    canonicalize_mission_evidence canonical_repository canonical_path climb trim is_blank
    experiment_mission_id check_pair check_delegate all_distinct all_pairs writer_missions
    high_autonomy_missions
registry_valid = refl

admitted :
    admit platform ports hooks request "now" "t1" missing
    ≡ (present registry, ok (AdmissionResult.admitted "mission-d" token 1))
unfolding admit admit_checked admit_step check_request check_prior check_owner owner_of
    mission_id_of candidate_evidence candidate_lane answer_candidate shares_experiment
    conflicts_with unless_duplicate grant granted capacity_reason deterministic_mission_id transact
    settle attempt publish finalize assert_authority read_state initial_state put_lane replace_lane
    token_record validate_state validate_admission_config validate_lane evidence_is_valid
    canonicalize_mission_evidence canonical_repository canonical_path climb trim is_blank
    experiment_mission_id check_pair check_delegate all_distinct all_pairs writer_missions
    high_autonomy_missions
admitted = refl

from_nothing : Runs platform missing (present registry)
from_nothing =
    subst (λ file. Runs platform missing file) (ap (λ r. r.0) admitted)
      (after done (admits ports hooks request "now" "t1" missing))

Runs-IsWithinLimits_example : IsWithinLimits registry
Runs-IsWithinLimits_example = Runs-IsWithinLimits platform registry from_nothing

admit-Owns_example : Owns token ((admit platform ports hooks request "now" "t1" missing).0)
admit-Owns_example =
    admit-Owns platform ports hooks request "now" "t1" missing (ap (λ r. r.1) admitted)

may_mutate : assert_can_mutate platform ports.config token (present registry) ≡ ok tt
unfolding assert_can_mutate read_state require_current_token check_mutation
    assert_no_active_delegates validate_state validate_admission_config validate_lane
    evidence_is_valid canonicalize_mission_evidence canonical_repository canonical_path climb trim
    is_blank experiment_mission_id check_pair check_delegate all_distinct all_pairs writer_missions
    high_autonomy_missions
may_mutate = refl

overlapping : overlaps platform evidence evidence ≡ true
unfolding overlaps shared_physical_surface surfaces contains
overlapping = refl

exclusive_example : token ≡ token
exclusive_example =
    exclusive platform ports.config registry token token captain captain may_mutate may_mutate refl
      refl overlapping

-- The registry after a renewal at another time.
abbrev renewed : String → RegistryFile
renewed time = (renew platform ports hooks token time (present registry)).0

owner : Owns token (present registry)
unfolding Owns current_of
owner = (captain, refl)

renewed_owner : Owns token (renewed "later")
unfolding Owns current_of renew renew_step renew_lane transact settle attempt publish finalize
    assert_authority read_state replace_lane token_record require_current_token validate_state
    validate_admission_config validate_lane evidence_is_valid canonicalize_mission_evidence
    canonical_repository canonical_path climb trim is_blank experiment_mission_id check_pair
    check_delegate all_distinct all_pairs writer_missions high_autonomy_missions
renewed_owner = (record captain { updated_at = "later" }, refl)

fenced_example : Owns token (present registry)
fenced_example =
    fenced platform token done (after done (renews ports hooks token "later" (present registry)))
      owner renewed_owner

abbrev released : RegistryFile × Checked (ℕ × LaneRecord × LaneRecord)
released = release platform ports hooks token true "end" (present registry)

abbrev idle_captain : LaneRecord
idle_captain = record captain {
  status = MissionAdmissionStatus.released;
  token = none;
  generation = 2;
  updated_at = "end";
}

released_ok : released.1 ≡ ok (2, record captain { token = none }, idle_captain)
unfolding release after_checks release_step release_lane detached_lane_view transact settle attempt
    publish finalize assert_authority read_state replace_lane put_lane require_current_token
    current_of assert_no_active_delegates validate_state validate_admission_config validate_lane
    evidence_is_valid canonicalize_mission_evidence canonical_repository canonical_path climb trim
    is_blank experiment_mission_id check_pair check_delegate all_distinct all_pairs writer_missions
    high_autonomy_missions
released_ok = refl

release-revokes_example :
    ¬ Owns token ((release platform ports hooks token true "end" (present registry)).0)
release-revokes_example =
    release-revokes platform ports hooks token true "end" (present registry) released_ok
