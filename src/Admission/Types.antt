-- ===== src/Admission/Types.antt =====
-- src/mission-admission/registry.ts: lanes, the evidence of what they own, and the registry of them.
-- An absent property is `none`; `repositoryScope`, which is `true` or absent, is a Boolean.
use tachiko_conductor.Prelude.{String, Bool, Option, List, ℕ, Eq, discrete_eq}

pub data MissionAdmissionRole : Type 0 where
  production_captain delegated_mutation_writer : MissionAdmissionRole
  read_only_review read_only_consultation isolated_experiment : MissionAdmissionRole

abbrev MissionAdmissionRole-discrete : Discrete MissionAdmissionRole
MissionAdmissionRole-discrete = hlevel

instance abbrev pub role_eq : Eq MissionAdmissionRole
role_eq = discrete_eq MissionAdmissionRole-discrete

pub data MissionAdmissionStatus : Type 0 where
  active parked released : MissionAdmissionStatus

abbrev MissionAdmissionStatus-discrete : Discrete MissionAdmissionStatus
MissionAdmissionStatus-discrete = hlevel

instance abbrev pub lane_status_eq : Eq MissionAdmissionStatus
lane_status_eq = discrete_eq MissionAdmissionStatus-discrete

pub data ParkedReason : Type 0 where
  capacity_captains capacity_writers capacity_high_autonomy capacity_repository : ParkedReason
  workflow_wait workflow_settled manual_checkpoint : ParkedReason

abbrev ParkedReason-discrete : Discrete ParkedReason
ParkedReason-discrete = hlevel

instance abbrev pub parked_reason_eq : Eq ParkedReason
parked_reason_eq = discrete_eq ParkedReason-discrete

pub record MissionEvidence : Type 0 where
  pub repository : String
  pub issue : Option ℕ
  pub pull_request : Option ℕ
  pub run : Option String
  pub claim : Option String
  pub workspace : Option String
  pub state_surface : Option String
  pub repository_scope : Bool

pub record AdmissionLimits : Type 0 where
  pub max_captains : ℕ
  pub max_writers : ℕ
  pub max_high_autonomy : ℕ
  pub max_per_repository : Option ℕ

pub record AdmissionConfig : Type 0 where
  pub revision : String
  pub limits : AdmissionLimits

pub record AdmissionToken : Type 0 where
  pub lane_id : String
  pub generation : ℕ
  pub token : String

pub record AdmissionRequest : Type 0 where
  pub lane_id : String
  pub evidence : MissionEvidence
  pub role : MissionAdmissionRole
  pub high_autonomy : Option Bool
  pub delegated_from_lane_id : Option String
  pub delegated_from_token : Option AdmissionToken
  pub experiment_of_mission_id : Option String

pub data AdmissionResult : Type 0 where
  admitted : (mission_id : String) → AdmissionToken → (revision : ℕ) → AdmissionResult
  parked : (mission_id : String) → ParkedReason → (revision : ℕ) → AdmissionResult
  duplicate : (mission_id conflicting_lane_id : String) → (revision : ℕ) → AdmissionResult

pub record LaneRecord : Type 0 where
  pub lane_id : String
  pub mission_id : String
  pub evidence : MissionEvidence
  pub role : MissionAdmissionRole
  pub status : MissionAdmissionStatus
  pub generation : ℕ
  pub token : Option String
  pub high_autonomy : Bool
  pub delegated_from_lane_id : Option String
  pub delegated_from_generation : Option ℕ
  pub experiment_of_mission_id : Option String
  pub parked_reason : Option ParkedReason
  pub updated_at : String

pub record LastTransition : Type 0 where
  pub kind : String
  pub lane_id : Option String
  pub at_time : String

pub record RegistryState : Type 0 where
  pub revision : ℕ
  pub config : AdmissionConfig
  pub lanes : List LaneRecord
  pub last_transition : Option LastTransition

-- The text of a reason, as it stands in the file.
abbrev pub reason_text : ParkedReason → String
reason_text ParkedReason.capacity_captains = "capacity_captains"
reason_text ParkedReason.capacity_writers = "capacity_writers"
reason_text ParkedReason.capacity_high_autonomy = "capacity_high_autonomy"
reason_text ParkedReason.capacity_repository = "capacity_repository"
reason_text ParkedReason.workflow_wait = "workflow_wait"
reason_text ParkedReason.workflow_settled = "workflow_settled"
reason_text ParkedReason.manual_checkpoint = "manual_checkpoint"

-- What an `AdmissionStateError` is thrown for.
pub data AdmissionStateError : Type 0 where
  malformed_config malformed_limits : AdmissionStateError
  bad_repository relative_path : AdmissionStateError
  missing_repository bad_issue bad_pull_request bad_run bad_claim : AdmissionStateError
  bad_workspace bad_state_surface no_evidence : AdmissionStateError
  corrupt_registry invalid_lane duplicate_lanes bad_transition_metadata : AdmissionStateError
  overlapping_lanes experiment_not_isolated duplicate_tokens : AdmissionStateError
  over_repository_capacity over_capacity orphaned_delegate many_delegates : AdmissionStateError
  unreadable_registry missing_registry config_differs : AdmissionStateError
  invalid_request delegate_needs_captain experiment_needs_mission : AdmissionStateError
  experiment_needs_surfaces read_only_authority parent_capability : AdmissionStateError
  already_active manual_reservation role_changed autonomy_downgraded : AdmissionStateError
  not_captain_capability captain_has_delegate delegate_autonomy : AdmissionStateError
  shared_experiment_surface merge_conflict stale_token delegate_active : AdmissionStateError
  missing_token not_captain overlaps_experiment overlaps_reserved : AdmissionStateError
  needs_lane_id needs_run_id conflicting_identity run_fenced : AdmissionStateError
  still_active not_settled delegate_cannot_park invalid_park_reason : AdmissionStateError
  needs_stopped_proof proof_mismatch stale_receipt not_stopped : AdmissionStateError
  cannot_mutate no_workspace cannot_publish : AdmissionStateError
  -- An error of a caller's own callback.
  callback_failed : (message : String) → AdmissionStateError
