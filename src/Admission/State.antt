-- ===== src/Admission/State.antt =====
-- src/mission-admission/registry.ts: which registries are valid. The tests on the shape of a value are
-- settled by its type.
use Prim.Native.String.{◌++◌ as ◌<>◌}
use tachiko_conductor.Prelude.{
  String, string_eq, nat_eq, option_eq, bool_eq, ℕ, suc, Bool, true, false, not, ◌&&◌, ◌||◌, ◌==◌,
  ltb, leb, Option, none, some, List, [], ◌∷◌, map, all, filter_by, includes, length, ok, ◌>>◌,
  reject, is_blank, if◌then◌else◌, Eq,
}
use tachiko_conductor.Admission.Types.{
  MissionAdmissionRole, MissionAdmissionStatus, AdmissionConfig, LaneRecord, LastTransition,
  RegistryState, AdmissionStateError, role_eq, lane_status_eq,
}
use tachiko_conductor.Admission.Platform.{Platform, non_empty, safe_positive, max_safe_integer}
use tachiko_conductor.Admission.Evidence.{
  Checked, fails, is_some, production, mutation, evidence_is_valid, evidence_includes,
  experiment_mission_id, shared_physical_surface, overlaps,
}

-- `validateAdmissionConfig`
unfoldable pub validate_admission_config : AdmissionConfig → Checked Unit
validate_admission_config config =
    reject (is_blank config.revision) AdmissionStateError.malformed_config
    >> reject
        (not (safe_positive config.limits.max_captains)
          || not (safe_positive config.limits.max_writers)
          || not (safe_positive config.limits.max_high_autonomy)
          || fails safe_positive config.limits.max_per_repository)
        AdmissionStateError.malformed_limits
    >> ok tt

abbrev pub is_active : LaneRecord → Bool
is_active lane = lane.status == MissionAdmissionStatus.active

abbrev pub is_parked : LaneRecord → Bool
is_parked lane = lane.status == MissionAdmissionStatus.parked

abbrev pub is_released : LaneRecord → Bool
is_released lane = lane.status == MissionAdmissionStatus.released

abbrev pub is_captain : LaneRecord → Bool
is_captain lane = lane.role == MissionAdmissionRole.production_captain

abbrev pub is_delegate : LaneRecord → Bool
is_delegate lane = lane.role == MissionAdmissionRole.delegated_mutation_writer

abbrev pub is_experiment : LaneRecord → Bool
is_experiment lane = lane.role == MissionAdmissionRole.isolated_experiment

-- A delegate's own captain.
abbrev pub is_from : LaneRecord → LaneRecord → Bool
is_from lane captain = lane.delegated_from_lane_id == some captain.lane_id

-- `capacityMissionId`
unfoldable pub capacity_mission_id : LaneRecord → String
capacity_mission_id lane =
    (if is_experiment lane then "experiment" else "production") <> ":" <> lane.mission_id

-- `new Set(values)`, of which only the members and their number are read.
unfoldable pub set_of {ℓ} : {A : Type ℓ} ⦃eq : Eq A⦄ → List A → List A
set_of [] = []
set_of (x ∷ xs) = let rest = set_of xs in if includes x rest then rest else x ∷ rest

-- `values.filter(test).length`
abbrev pub count {ℓ} : {A : Type ℓ} → (A → Bool) → List A → ℕ
count test xs = length (filter_by test xs)

abbrev pub active_lanes : RegistryState → List LaneRecord
active_lanes state = filter_by is_active state.lanes

unfoldable pub writer_missions : RegistryState → List String
unfolding set_of
writer_missions state =
    set_of
      (map (λ lane. lane.mission_id) (filter_by (λ lane. mutation lane.role) (active_lanes state)))

unfoldable pub high_autonomy_missions : RegistryState → List String
unfolding set_of capacity_mission_id
high_autonomy_missions state =
    set_of (map capacity_mission_id (filter_by (λ lane. lane.high_autonomy) (active_lanes state)))

-- A test of every two lanes, the earlier one first.
unfoldable pub all_pairs {ℓ} : {A : Type ℓ} → (A → A → Bool) → List A → Bool
all_pairs test [] = true
all_pairs test (x ∷ xs) = all (test x) xs && all_pairs test xs

-- No value occurs twice.
unfoldable pub all_distinct {ℓ} : {A : Type ℓ} ⦃eq : Eq A⦄ → List A → Bool
unfolding all_pairs
all_distinct xs = all_pairs (λ x y. not (x == y)) xs

-- At most `limit` of `names` are one name; `seen` stands before them.
unfoldable pub within_limit : (limit : ℕ) → (seen names : List String) → Bool
within_limit limit seen [] = true
within_limit limit seen (name ∷ names) =
    not (ltb limit (suc (count (λ other. other == name) seen)))
    && within_limit limit (name ∷ seen) names

unfoldable pub over_repository_capacity : Option ℕ → List LaneRecord → Bool
unfolding within_limit
over_repository_capacity none active = false
over_repository_capacity (some limit) active =
    not
      (within_limit limit [] (map (λ lane. lane.evidence.repository) (filter_by is_captain active)))

unfoldable pub find_lane : (LaneRecord → Bool) → List LaneRecord → Option LaneRecord
find_lane test [] = none
find_lane test (lane ∷ lanes) =
    let rest = find_lane test lanes in if test lane then some lane else rest

-- `state.lanes.find((lane) => lane.laneId === id)`
abbrev pub lane_by_id : String → List LaneRecord → Option LaneRecord
lane_by_id id [] = none
lane_by_id id (lane ∷ lanes) =
    let rest = lane_by_id id lanes in if lane.lane_id == id then some lane else rest

-- Two delegates of one generation of one captain.
abbrev pub same_captain : LaneRecord → LaneRecord → Bool
same_captain left right =
    (left.delegated_from_lane_id == right.delegated_from_lane_id)
    && (left.delegated_from_generation == right.delegated_from_generation)

-- `for (const x of xs) check(x)`, which ends at the first error.
unfoldable pub for_each : {A : Type 0} → (A → Checked Unit) → List A → Checked Unit
for_each check [] = ok tt
for_each check (x ∷ xs) = check x >> for_each check xs

-- The same for every two elements, the earlier one first.
unfoldable pub for_pairs : {A : Type 0} → (A → A → Checked Unit) → List A → Checked Unit
unfolding for_each
for_pairs check [] = ok tt
for_pairs check (x ∷ xs) = for_each (check x) xs >> for_pairs check xs

module _ (P : Platform) where
  -- `validateLane`
  unfoldable pub validate_lane : LaneRecord → Bool
  validate_lane lane =
      non_empty lane.lane_id
      && non_empty lane.mission_id
      && evidence_is_valid P lane.evidence
      && safe_positive lane.generation
      && not (fails non_empty lane.token)
      && non_empty lane.updated_at
      && not (is_active lane && not (is_some lane.token))
      && not (not (is_active lane) && is_some lane.token)
      && not (
          is_delegate lane
          && (not (is_some lane.delegated_from_lane_id)
              || fails non_empty lane.delegated_from_lane_id
              || not (is_some lane.delegated_from_generation)
              || fails safe_positive lane.delegated_from_generation))
      && not (is_delegate lane && is_parked lane)
      && not (
          not (is_delegate lane)
          && (is_some lane.delegated_from_lane_id || is_some lane.delegated_from_generation))
      && not (
          is_experiment lane
          && (not (is_some lane.experiment_of_mission_id)
              || fails non_empty lane.experiment_of_mission_id))
      && not (
          is_experiment lane
          && fails (λ parent. lane.mission_id == experiment_mission_id P lane.lane_id parent)
              lane.experiment_of_mission_id)
      && not (not (is_experiment lane) && is_some lane.experiment_of_mission_id)
      && (is_parked lane == is_some lane.parked_reason)

  -- Two lanes that claim the same production work, and are no captain and delegate of one mission.
  unfoldable pub pair_overlaps : LaneRecord → LaneRecord → Bool
  pair_overlaps left right =
      not (is_released left)
      && not (is_released right)
      && production left.role
      && production right.role
      && overlaps P left.evidence right.evidence
      && not (is_delegate left && is_from left right)
      && not (is_delegate right && is_from right left)
      && not (is_delegate left && is_delegate right && same_captain left right)

  unfoldable pub pair_shares_experiment : LaneRecord → LaneRecord → Bool
  pair_shares_experiment left right =
      not (is_released left)
      && not (is_released right)
      && (is_experiment left || is_experiment right)
      && shared_physical_surface P left.evidence right.evidence

  unfoldable pub check_pair : LaneRecord → LaneRecord → Checked Unit
  check_pair left right =
      reject (pair_overlaps left right) AdmissionStateError.overlapping_lanes
      >> reject (pair_shares_experiment left right) AdmissionStateError.experiment_not_isolated
      >> ok tt

-- Whether a delegate's captain, if it is found, still answers for the delegate.
unfoldable pub answers_for : LaneRecord → Option LaneRecord → Bool
answers_for delegate none = false
answers_for delegate (some owner) =
    (not (is_active delegate)
      || (is_active owner
          && (delegate.delegated_from_generation == some owner.generation)
          && evidence_includes delegate.evidence owner.evidence))
    && not
        (fails (λ generation. leb generation owner.generation) delegate.delegated_from_generation)
    && (owner.mission_id == delegate.mission_id)
    && not delegate.high_autonomy

unfoldable pub check_delegate : List LaneRecord → LaneRecord → Checked Unit
unfolding answers_for find_lane
check_delegate lanes delegate =
    reject
      (not
        (answers_for delegate (find_lane (λ lane. is_from delegate lane && is_captain lane) lanes)))
      AdmissionStateError.orphaned_delegate

unfoldable pub transition_is_valid : Option LastTransition → Bool
transition_is_valid none = true
transition_is_valid (some t) =
    non_empty t.kind && non_empty t.at_time && not (fails non_empty t.lane_id)

-- More active lanes than the configuration allows.
unfoldable pub over_capacity : RegistryState → Bool
over_capacity state =
    ltb state.config.limits.max_captains (count is_captain (active_lanes state))
    || ltb state.config.limits.max_writers (length (writer_missions state))
    || ltb state.config.limits.max_high_autonomy (length (high_autonomy_missions state))

-- `validateState`
unfoldable pub validate_state : Platform → RegistryState → Checked Unit
unfolding for_pairs for_each over_capacity over_repository_capacity transition_is_valid
validate_state P state =
    reject (not (leb state.revision max_safe_integer)) AdmissionStateError.corrupt_registry
    >> validate_admission_config state.config
    >> reject (not (all (validate_lane P) state.lanes)) AdmissionStateError.invalid_lane
    >> reject (not (all_distinct (map (λ lane. lane.lane_id) state.lanes)))
        AdmissionStateError.duplicate_lanes
    >> for_pairs (check_pair P) state.lanes
    >> reject (not (transition_is_valid state.last_transition))
        AdmissionStateError.bad_transition_metadata
    >> reject (not (all_distinct (map (λ lane. lane.token) (active_lanes state))))
        AdmissionStateError.duplicate_tokens
    >> reject (over_repository_capacity state.config.limits.max_per_repository (active_lanes state))
        AdmissionStateError.over_repository_capacity
    >> reject (over_capacity state) AdmissionStateError.over_capacity
    >> for_each (check_delegate state.lanes) (filter_by is_delegate state.lanes)
    >> reject
        (not (
          all_pairs (λ left right. not (same_captain left right))
            (filter_by (λ lane. is_active lane && is_delegate lane) state.lanes)))
        AdmissionStateError.many_delegates
