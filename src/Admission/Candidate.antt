-- ===== src/Admission/Candidate.antt =====
-- src/mission-admission/registry.ts: the second half of `admit`, from the candidate lane to the answer.
use tachiko_conductor.Prelude.{
  String, string_eq, ℕ, nat_eq, option_eq, bool_eq, ◌+◌, Bool, false, not, ◌&&◌, ◌||◌, ◌==◌, Option,
  none, some, any, ok, err, ◌>>◌, ◌>>=◌, reject, is_blank, if◌then◌else◌,
}
use tachiko_conductor.Admission.Types.{
  MissionAdmissionRole, MissionAdmissionStatus, ParkedReason, MissionEvidence, AdmissionToken,
  AdmissionRequest, AdmissionResult, LaneRecord, RegistryState, AdmissionStateError, role_eq,
  parked_reason_eq, reason_text,
}
use tachiko_conductor.Admission.Platform.{Platform}
use tachiko_conductor.Admission.Evidence.{
  Checked, production, canonicalize_mission_evidence, deterministic_mission_id,
  experiment_mission_id, merge_evidence, same_evidence, shared_physical_surface, overlaps,
}
use tachiko_conductor.Admission.State.{is_parked, is_released, is_experiment, find_lane, lane_by_id}
use tachiko_conductor.Admission.Transact.{
  Ports, Hooks, Step, kept, wrote, RegistryFile, transact, put_lane, token_record,
}
use tachiko_conductor.Admission.Admit.{
  or_text, truthy, capacity_reason, check_request, check_prior, check_owner, owner_of,
}

-- `lane ?? undefined`'s properties, and what stands for them where there is no lane.
abbrev pub generation_of : Option LaneRecord → ℕ
generation_of none = 0
generation_of (some lane) = lane.generation

autonomy_of : Option Bool → Option LaneRecord → Bool
autonomy_of (some asked) prior = asked
autonomy_of none none = false
autonomy_of none (some prior) = prior.high_autonomy

generation_if_owned : Option LaneRecord → Option ℕ
generation_if_owned none = none
generation_if_owned (some owner) = some owner.generation

module _ (P : Platform) where
  production_mission : MissionEvidence → (prior owner : Option LaneRecord) → Checked String
  production_mission evidence prior (some owner) = ok owner.mission_id
  production_mission evidence (some prior) none = ok prior.mission_id
  production_mission evidence none none = deterministic_mission_id P evidence

  unfoldable pub mission_id_of :
      AdmissionRequest → MissionEvidence → (prior owner : Option LaneRecord) → Checked String
  unfolding production_mission
  mission_id_of request evidence prior owner =
      if request.role == MissionAdmissionRole.isolated_experiment
      then ok (experiment_mission_id P request.lane_id (or_text request.experiment_of_mission_id))
      else production_mission evidence prior owner

evidence_or : MissionEvidence → Option LaneRecord → MissionEvidence
evidence_or evidence none = evidence
evidence_or evidence (some lane) = lane.evidence

unfoldable pub candidate_evidence :
    MissionEvidence → (prior owner : Option LaneRecord) → Checked MissionEvidence
unfolding evidence_or
candidate_evidence evidence prior (some owner) =
    merge_evidence owner.evidence (evidence_or owner.evidence prior) >>= λ merged.
    merge_evidence merged evidence
candidate_evidence evidence (some prior) none = merge_evidence prior.evidence evidence
candidate_evidence evidence none none = ok evidence

unfoldable pub candidate_lane :
    AdmissionRequest
    → (mission_id : String) → MissionEvidence
    → (prior owner : Option LaneRecord) → (now fresh_token : String) → LaneRecord
unfolding autonomy_of generation_if_owned
candidate_lane request mission_id evidence prior owner now fresh_token = record {
  lane_id = request.lane_id;
  mission_id = mission_id;
  evidence = evidence;
  role = request.role;
  status = MissionAdmissionStatus.active;
  generation = generation_of prior + 1;
  token = some fresh_token;
  high_autonomy = autonomy_of request.high_autonomy prior;
  delegated_from_lane_id = truthy request.delegated_from_lane_id;
  delegated_from_generation = generation_if_owned owner;
  experiment_of_mission_id = truthy request.experiment_of_mission_id;
  parked_reason = none;
  updated_at = now;
}

-- The lane is parked for want of capacity, in a new generation.
unfoldable pub park_candidate :
    RegistryState → LaneRecord → (now : String) → ParkedReason → Step AdmissionResult
park_candidate state candidate now reason =
    let parked_lane : LaneRecord = record candidate {
      status = MissionAdmissionStatus.parked;
      token = none;
      parked_reason = some reason;
    } in
    wrote (put_lane state parked_lane (reason_text reason) now)
      (AdmissionResult.parked candidate.mission_id reason (state.revision + 1))

-- Without capacity, a lane that is parked stays as it is.
unfoldable pub deny :
    RegistryState
    → Option LaneRecord
    → LaneRecord
    → (now : String) → ParkedReason
    → Step AdmissionResult
unfolding park_candidate
deny state none candidate now reason = park_candidate state candidate now reason
deny state (some prior) candidate now reason =
    if is_parked prior
    then kept (AdmissionResult.parked prior.mission_id reason state.revision)
    else park_candidate state candidate now reason

unfoldable pub granted :
    RegistryState → LaneRecord → (now : String) → AdmissionToken → Checked (Step AdmissionResult)
granted state candidate now token = ok (
    wrote (put_lane state candidate "admitted" now)
      (AdmissionResult.admitted candidate.mission_id token (state.revision + 1)))

unfoldable pub grant :
    RegistryState
    → Option LaneRecord
    → LaneRecord
    → (now : String) → Option ParkedReason
    → Checked (Step AdmissionResult)
unfolding deny granted
grant state prior candidate now (some reason) = ok (deny state prior candidate now reason)
grant state prior candidate now none =
    token_record candidate >>= λ token. granted state candidate now token

-- The request of a lane that is parked already, for the reason that holds still, changes nothing.
unfoldable pub waits_for :
    RegistryState → (prior candidate : LaneRecord) → Option ParkedReason → Option AdmissionResult
waits_for state prior candidate none = none
waits_for state prior candidate (some reason) =
    if is_parked prior
      && (prior.role == candidate.role)
      && same_evidence prior.evidence candidate.evidence
      && (prior.high_autonomy == candidate.high_autonomy)
      && (prior.delegated_from_lane_id == candidate.delegated_from_lane_id)
      && (prior.experiment_of_mission_id == candidate.experiment_of_mission_id)
      && (capacity_reason state candidate == some reason)
    then some (AdmissionResult.parked prior.mission_id reason state.revision)
    else none

unfoldable pub waiting_answer :
    RegistryState → Option LaneRecord → LaneRecord → Option AdmissionResult
unfolding waits_for
waiting_answer state none candidate = none
waiting_answer state (some prior) candidate = waits_for state prior candidate prior.parked_reason

unfoldable pub unless_waiting :
    RegistryState
    → Option LaneRecord
    → LaneRecord
    → (now : String) → Option AdmissionResult
    → Checked (Step AdmissionResult)
unfolding grant
unless_waiting state prior candidate now (some answer) = ok (kept answer)
unless_waiting state prior candidate now none =
    grant state prior candidate now (capacity_reason state candidate)

-- The answer to a candidate, by the lane that owns its evidence already, if there is one.
unfoldable pub unless_duplicate :
    RegistryState
    → Option LaneRecord
    → LaneRecord
    → (now : String) → Option LaneRecord
    → Checked (Step AdmissionResult)
unfolding unless_waiting waiting_answer
unless_duplicate state prior candidate now (some conflict) =
    ok (kept (AdmissionResult.duplicate conflict.mission_id conflict.lane_id state.revision))
unless_duplicate state prior candidate now none =
    unless_waiting state prior candidate now (waiting_answer state prior candidate)

module _ (P : Platform) where
  -- A lane that holds a surface which an experiment may not share with the candidate.
  unfoldable pub shares_experiment : LaneRecord → LaneRecord → Bool
  shares_experiment candidate lane =
      not (is_released lane)
      && not (lane.lane_id == candidate.lane_id)
      && (is_experiment lane || is_experiment candidate)
      && shared_physical_surface P lane.evidence candidate.evidence

  -- A reserved production lane that claims some of the candidate's evidence.
  unfoldable pub conflicts_with : AdmissionRequest → LaneRecord → LaneRecord → Bool
  conflicts_with request candidate lane =
      not (is_released lane)
      && not (lane.lane_id == request.lane_id)
      && production lane.role
      && production request.role
      && overlaps P lane.evidence candidate.evidence
      && not (
          (request.role == MissionAdmissionRole.delegated_mutation_writer)
          && (request.delegated_from_lane_id == some lane.lane_id))

  unfoldable pub answer_candidate :
      AdmissionRequest
      → RegistryState
      → Option LaneRecord
      → LaneRecord
      → (now : String) → Checked (Step AdmissionResult)
  unfolding find_lane
  answer_candidate request state prior candidate now =
      reject (any (shares_experiment candidate) state.lanes)
        AdmissionStateError.shared_experiment_surface
      >> unless_duplicate state prior candidate now
          (find_lane (conflicts_with request candidate) state.lanes)

  -- What `admit` does in its transaction.
  unfoldable pub admit_step :
      AdmissionRequest
      → MissionEvidence
      → (now fresh_token : String) → RegistryState
      → Checked (Step AdmissionResult)
  unfolding mission_id_of candidate_evidence candidate_lane check_prior check_owner
  admit_step request evidence now fresh_token state =
      let prior = lane_by_id request.lane_id state.lanes in
      let owner = owner_of state request in
      (check_prior request prior >> check_owner state request prior owner)
      >> (mission_id_of P request evidence prior owner >>= λ mission_id.
          candidate_evidence evidence prior owner >>= λ merged.
          answer_candidate request state prior
            (candidate_lane request mission_id merged prior owner now fresh_token) now)

  unfoldable pub admit_checked :
      Ports
      → Hooks AdmissionResult
      → AdmissionRequest
      → (now fresh_token : String) → RegistryFile
      → Checked MissionEvidence
      → RegistryFile × Checked AdmissionResult
  admit_checked ports hooks request now fresh_token file (err error) = (file, err error)
  admit_checked ports hooks request now fresh_token file (ok evidence) =
      transact P ports hooks (admit_step request evidence now fresh_token) file

  -- `admit`
  unfoldable pub admit :
      Ports
      → Hooks AdmissionResult
      → AdmissionRequest
      → (now fresh_token : String) → RegistryFile
      → RegistryFile × Checked AdmissionResult
  unfolding admit_checked
  admit ports hooks request now fresh_token file =
      admit_checked ports hooks request now fresh_token file (
        reject (is_blank request.lane_id) AdmissionStateError.invalid_request
        >> (canonicalize_mission_evidence P request.evidence >>= λ evidence.
            check_request request evidence >> ok evidence))
