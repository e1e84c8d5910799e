-- ===== src/Admission/Admit.antt =====
-- src/mission-admission/registry.ts: `admit`, which gives a lane ownership of its evidence, parks it for
-- want of capacity, or names the lane that owns the evidence already.
use tachiko_conductor.Prelude.{
  String, string_eq, ℕ, nat_eq, option_eq, bool_eq, Bool, true, false, not, ◌&&◌, ◌||◌, ◌==◌, leb,
  Option, none, some, List, any, includes, length, ok, ◌>>◌, reject, is_blank, if◌then◌else◌,
}
use tachiko_conductor.Admission.Types.{
  MissionAdmissionRole, ParkedReason, MissionEvidence, AdmissionToken, AdmissionRequest, LaneRecord,
  RegistryState, AdmissionStateError, role_eq, lane_status_eq, parked_reason_eq,
}
use tachiko_conductor.Admission.Evidence.{Checked, is_some, mutation}
use tachiko_conductor.Admission.State.{
  is_active, is_parked, is_captain, is_delegate, is_from, count, active_lanes, writer_missions,
  high_autonomy_missions, capacity_mission_id, find_lane,
}

abbrev pub or_text : Option String → String
or_text none = ""
or_text (some value) = value

-- A text that is present and not empty, as a condition of the source reads it.
abbrev pub truthy : Option String → Option String
truthy value = if or_text value == "" then none else value

-- An optional flag that is set.
abbrev is_set : Option Bool → Bool
is_set flag = flag == some true

at_repository_limit : Option ℕ → String → List LaneRecord → Bool
at_repository_limit none repository active = false
at_repository_limit (some limit) repository active =
    leb limit (count (λ lane. is_captain lane && (lane.evidence.repository == repository)) active)

-- `capacityReason`
unfoldable pub capacity_reason : RegistryState → LaneRecord → Option ParkedReason
unfolding at_repository_limit
capacity_reason state candidate =
    let limits = state.config.limits in
    if is_captain candidate && leb limits.max_captains (count is_captain (active_lanes state))
    then some ParkedReason.capacity_captains
    else if mutation candidate.role
        && not (includes candidate.mission_id (writer_missions state))
        && leb limits.max_writers (length (writer_missions state))
    then some ParkedReason.capacity_writers
    else if candidate.high_autonomy
        && not (includes (capacity_mission_id candidate) (high_autonomy_missions state))
        && leb limits.max_high_autonomy (length (high_autonomy_missions state))
    then some ParkedReason.capacity_high_autonomy
    else if is_captain candidate
        && at_repository_limit limits.max_per_repository candidate.evidence.repository
            (active_lanes state)
    then some ParkedReason.capacity_repository
    else none

abbrev is_read_only : MissionAdmissionRole → Bool
is_read_only role =
    (role == MissionAdmissionRole.read_only_review)
    || (role == MissionAdmissionRole.read_only_consultation)

-- The tests of a request that come before the registry is read.
unfoldable pub check_request : AdmissionRequest → MissionEvidence → Checked Unit
check_request request evidence =
    let delegate = request.role == MissionAdmissionRole.delegated_mutation_writer in
    let experiment = request.role == MissionAdmissionRole.isolated_experiment in
    reject
      (delegate
        && (is_blank (or_text request.delegated_from_lane_id)
            || not (is_some request.delegated_from_token)))
      AdmissionStateError.delegate_needs_captain
    >> reject (experiment && is_blank (or_text request.experiment_of_mission_id))
        AdmissionStateError.experiment_needs_mission
    >> reject
        (experiment && (not (is_some evidence.workspace) || not (is_some evidence.state_surface)))
        AdmissionStateError.experiment_needs_surfaces
    >> reject
        (is_read_only request.role
          && (is_some (truthy request.delegated_from_lane_id)
              || is_some request.delegated_from_token
              || is_set request.high_autonomy))
        AdmissionStateError.read_only_authority
    >> reject (not delegate && is_some request.delegated_from_token)
        AdmissionStateError.parent_capability

-- The lane's earlier record must let the lane be admitted again.
unfoldable pub check_prior : AdmissionRequest → Option LaneRecord → Checked Unit
check_prior request none = ok tt
check_prior request (some prior) =
    reject (is_active prior) AdmissionStateError.already_active
    >> reject (is_parked prior && (prior.parked_reason == some ParkedReason.manual_checkpoint))
        AdmissionStateError.manual_reservation
    >> reject (not (prior.role == request.role)) AdmissionStateError.role_changed
    >> reject (prior.high_autonomy && (request.high_autonomy == some false))
        AdmissionStateError.autonomy_downgraded

-- The token is the captain's own.
is_capability : LaneRecord → Option AdmissionToken → Bool
is_capability owner none = false
is_capability owner (some token) =
    (token.lane_id == owner.lane_id)
    && (token.generation == owner.generation)
    && (some token.token == owner.token)

is_other_mission : LaneRecord → Option LaneRecord → Bool
is_other_mission owner none = false
is_other_mission owner (some prior) = not (prior.mission_id == owner.mission_id)

answers : AdmissionRequest → (prior owner : Option LaneRecord) → Bool
answers request prior none = false
answers request prior (some owner) =
    is_capability owner request.delegated_from_token && not (is_other_mission owner prior)

has_delegate : RegistryState → Option LaneRecord → Bool
has_delegate state none = false
has_delegate state (some owner) =
    any
      (λ lane.
        is_active lane
        && is_delegate lane
        && is_from lane owner
        && (lane.delegated_from_generation == some owner.generation))
      state.lanes

-- The captain that a delegate names, if it is active.
unfoldable pub owner_of : RegistryState → AdmissionRequest → Option LaneRecord
unfolding find_lane
owner_of state request =
    if request.role == MissionAdmissionRole.delegated_mutation_writer
    then find_lane
        (λ lane.
          (request.delegated_from_lane_id == some lane.lane_id)
          && is_active lane
          && is_captain lane)
        state.lanes
    else none

unfoldable pub check_owner :
    RegistryState → AdmissionRequest → (prior owner : Option LaneRecord) → Checked Unit
unfolding answers has_delegate is_capability is_other_mission
check_owner state request prior owner =
    let delegate = request.role == MissionAdmissionRole.delegated_mutation_writer in
    reject (delegate && not (answers request prior owner))
      AdmissionStateError.not_captain_capability
    >> reject (has_delegate state owner) AdmissionStateError.captain_has_delegate
    >> reject (delegate && is_set request.high_autonomy) AdmissionStateError.delegate_autonomy
