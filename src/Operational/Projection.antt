-- ===== src/Operational/Projection.antt =====
-- src/mission-admission/registry.ts, `project`; src/operational/runtime-projection.ts,
-- `composeOperationalRuntimeProjection`.
use tachiko_conductor.Prelude.{
  String, string_eq, ℕ, zero, suc, ◌-◌, nat_eq, option_eq, Bool, true, false, not, ◌&&◌, ◌||◌, ◌==◌,
  ltb, Option, none, some, List, [], ◌∷◌, map, any, all, filter_by, includes, length, if◌then◌else◌,
  Eq, discrete_eq,
}
use tachiko_conductor.Types.Names.{WorkflowState, state_eq}
use tachiko_conductor.Types.Run.{Run}
use tachiko_conductor.Admission.Types.{
  MissionAdmissionRole, MissionAdmissionStatus, ParkedReason, MissionEvidence, AdmissionLimits,
  LaneRecord, LastTransition, RegistryState, role_eq, lane_status_eq,
}
use tachiko_conductor.Admission.Evidence.{mutation}
use tachiko_conductor.Admission.State.{
  is_active, is_parked, is_captain, is_delegate, count, active_lanes, writer_missions,
  high_autonomy_missions,
}

-- `left.localeCompare(right)`, a parameter of what follows.
pub data Comparison : Type 0 where
  below equal above : Comparison

pub record AdmissionCounts : Type 0 where
  pub captains : ℕ
  pub writers : ℕ
  pub high_autonomy : ℕ
  pub parked : ℕ

pub record ProjectedLane : Type 0 where
  pub lane_id : String
  pub mission_id : String
  pub evidence : MissionEvidence
  pub role : MissionAdmissionRole
  pub status : MissionAdmissionStatus
  pub generation : ℕ
  pub high_autonomy : Bool
  pub parked_reason : Option ParkedReason

pub record AdmissionProjection : Type 0 where
  pub revision : ℕ
  pub limits : AdmissionLimits
  pub counts : AdmissionCounts
  pub lanes : List ProjectedLane
  pub omitted_lane_count : ℕ
  pub lanes_truncated : Bool
  pub last_transition : Option LastTransition

unfoldable pub priority : LaneRecord → ℕ
priority lane =
    if is_active lane && is_captain lane
    then 0
    else if is_active lane && is_delegate lane
    then 1
    else if is_active lane
    then 2
    else if is_parked lane
    then 3
    else 4

compare_numbers : ℕ → ℕ → Comparison
compare_numbers a b =
    if ltb a b then Comparison.below else if ltb b a then Comparison.above else Comparison.equal

-- `first || second`, on the results of comparisons.
or_then : Comparison → Comparison → Comparison
or_then Comparison.equal second = second
or_then first second = first

is_above : Comparison → Bool
is_above Comparison.above = true
is_above _ = false

unfoldable pub take : {A : Type 0} → ℕ → List A → List A
take zero xs = []
take (suc n) [] = []
take (suc n) (x ∷ xs) = x ∷ take n xs

project_lane : LaneRecord → ProjectedLane
project_lane lane = record {
  lane_id = lane.lane_id;
  mission_id = lane.mission_id;
  evidence = lane.evidence;
  role = lane.role;
  status = lane.status;
  generation = lane.generation;
  high_autonomy = lane.high_autonomy;
  parked_reason = lane.parked_reason;
}

module _ (locale_compare : String → String → Comparison) where
  compare_lanes : (left right : LaneRecord) → Comparison
  unfolding priority compare_numbers or_then
  compare_lanes left right = or_then (compare_numbers (priority left) (priority right)) (
      or_then (locale_compare right.updated_at left.updated_at) (
        or_then (locale_compare left.lane_id right.lane_id)
          (compare_numbers right.generation left.generation)))

  -- The stable sort of `Array.prototype.sort`.
  insert_lane : LaneRecord → List LaneRecord → List LaneRecord
  unfolding compare_lanes is_above
  insert_lane lane [] = lane ∷ []
  insert_lane lane (other ∷ others) =
      let rest = insert_lane lane others in
      if is_above (compare_lanes lane other) then other ∷ rest else lane ∷ other ∷ others

  sort_lanes : List LaneRecord → List LaneRecord
  unfolding insert_lane
  sort_lanes [] = []
  sort_lanes (lane ∷ lanes) = insert_lane lane (sort_lanes lanes)

  -- `project`
  unfoldable pub project : RegistryState → AdmissionProjection
  unfolding sort_lanes take project_lane
  project state =
      let selected = take 100 (sort_lanes state.lanes) in
      let omitted = length state.lanes - length selected in
      record {
        revision = state.revision;
        limits = state.config.limits;
        counts = record {
          captains = count is_captain (active_lanes state);
          writers = length (writer_missions state);
          high_autonomy = length (high_autonomy_missions state);
          parked = count is_parked state.lanes;
        };
        lanes = map project_lane selected;
        omitted_lane_count = omitted;
        lanes_truncated = ltb 0 omitted;
        last_transition = state.last_transition;
      }

pub data Supervisor : Type 0 where
  running stopped parked : Supervisor

pub data Ownership : Type 0 where
  unowned active ambiguous : Ownership

instance abbrev pub ownership_eq : Eq Ownership
ownership_eq = discrete_eq hlevel

pub data Checkpoint : Type 0 where
  durable in_progress unknown : Checkpoint

instance abbrev pub checkpoint_eq : Eq Checkpoint
checkpoint_eq = discrete_eq hlevel

pub data ManualState : Type 0 where
  active parked : ManualState

instance abbrev pub manual_state_eq : Eq ManualState
manual_state_eq = discrete_eq hlevel

pub record MaintenanceHold : Type 0 where
  pub active : Bool
  pub reason : Option String

pub record ActiveWriter : Type 0 where
  pub issue : Option ℕ
  pub run_id : String
  pub worker : Option String
  pub worktree : String

pub record ManualLane : Type 0 where
  pub repository : String
  pub worktree : String
  pub branch : String
  pub checkpoint_sha : String
  pub clean : Bool
  pub state : ManualState
  pub recoverable : Bool
  pub lane_id : Option String
  pub mission_id : Option String
  pub admission_revision : Option ℕ

pub record OperationalRuntimeProjection : Type 0 where
  pub updated_at : String
  pub supervisor : Supervisor
  pub stage : String
  pub next_poll_at : Option String
  pub event_wake_eligible : Bool
  pub maintenance_hold : MaintenanceHold
  pub ownership : Ownership
  pub checkpoint : Checkpoint
  pub active_writer : Option ActiveWriter
  pub manual_lane : Option ManualLane

pub record ProjectionInput : Type 0 where
  pub admission : AdmissionProjection
  pub runs : List Run
  pub prior : Option OperationalRuntimeProjection
  pub now : String
  pub stage : String
  pub supervisor : Supervisor
  pub event_wake_eligible : Bool
  pub next_poll_at : Option String
  pub maintenance_hold : Option MaintenanceHold
  pub manual_lane : Option ManualLane
  pub durable_lane_ids : List String
  pub reentry_evidence_complete : Bool

-- A parked manual lane that is dirty or cannot be taken up again.
unfoldable pub adverse_parked_lane : Option ManualLane → Bool
adverse_parked_lane none = false
adverse_parked_lane (some lane) =
    (lane.state == ManualState.parked) && (not lane.clean || not lane.recoverable)

-- The manual lane, if it is in the state.
abbrev pub in_state : ManualState → Option ManualLane → Option ManualLane
in_state state none = none
in_state state (some lane) = if lane.state == state then some lane else none

-- A run whose state is none of those that are settled or wait.
unfoldable pub is_live : Run → Bool
is_live run = not (
    (run.state == WorkflowState.merged)
    || (run.state == WorkflowState.failed)
    || (run.state == WorkflowState.merge_ready)
    || (run.state == WorkflowState.needs_human)
    || (run.state == WorkflowState.waiting_dependency))

abbrev pub mutation_lanes : AdmissionProjection → List ProjectedLane
mutation_lanes admission = filter_by (λ lane. mutation lane.role) admission.lanes

abbrev checkpoint_lanes : AdmissionProjection → List ProjectedLane
checkpoint_lanes admission =
    filter_by
      (λ lane.
        (lane.status == MissionAdmissionStatus.parked)
        || (lane.status == MissionAdmissionStatus.released))
      (mutation_lanes admission)

abbrev pub is_durable : ProjectionInput → ProjectedLane → Bool
is_durable input lane = includes lane.lane_id input.durable_lane_ids

-- The run has a lane whose re-entry evidence is durable.
unfoldable pub has_durable_lane : ProjectionInput → Run → Bool
has_durable_lane input run =
    any (λ lane. (lane.evidence.run == some run.id) && is_durable input lane)
      (checkpoint_lanes input.admission)

-- What cannot be proved safe where no writer is active.
unfoldable pub is_uncertain : ProjectionInput → Bool
is_uncertain input =
    any is_live input.runs
    || any (λ lane. lane.status == MissionAdmissionStatus.active) (mutation_lanes input.admission)
    || not (all (is_durable input) (checkpoint_lanes input.admission))
    || not (all (has_durable_lane input) input.runs)
    || not input.reentry_evidence_complete

pub record Summary : Type 0 where
  pub ownership : Ownership
  pub checkpoint : Checkpoint
  pub manual_lane : Option ManualLane

-- An adverse parked lane makes a restart uncertain, and is shown.
unfoldable pub demote : Option ManualLane → Summary → Summary
demote supplied summary = record {
  ownership =
      if adverse_parked_lane supplied
        && (summary.ownership == Ownership.unowned)
        && (summary.checkpoint == Checkpoint.durable)
      then Ownership.ambiguous
      else summary.ownership;
  checkpoint =
      if adverse_parked_lane supplied
        && (summary.ownership == Ownership.unowned)
        && (summary.checkpoint == Checkpoint.durable)
      then Checkpoint.unknown
      else summary.checkpoint;
  manual_lane =
      if adverse_parked_lane supplied && not (summary.ownership == Ownership.active)
      then supplied
      else summary.manual_lane;
}

-- The summary, from whether a writer is counted, lanes are left out, and anything is uncertain.
unfoldable pub summary_of : (writes truncated uncertain : Bool) → Option ManualLane → Summary
unfolding demote
summary_of true truncated uncertain manual_lane = record {
  ownership = Ownership.active;
  checkpoint = Checkpoint.in_progress;
  manual_lane = in_state ManualState.active manual_lane;
}
summary_of false true uncertain manual_lane = demote manual_lane (record {
  ownership = Ownership.ambiguous;
  checkpoint = Checkpoint.unknown;
  manual_lane = none;
})
summary_of false false true manual_lane = demote manual_lane (record {
  ownership = Ownership.ambiguous;
  checkpoint = Checkpoint.unknown;
  manual_lane = none;
})
summary_of false false false manual_lane = demote manual_lane (record {
  ownership = Ownership.unowned;
  checkpoint = Checkpoint.durable;
  manual_lane = in_state ManualState.parked manual_lane;
})

unfoldable pub summarize : ProjectionInput → Summary
unfolding summary_of
summarize input =
    summary_of (ltb 0 input.admission.counts.writers) input.admission.lanes_truncated
      (is_uncertain input) input.manual_lane

-- `input.maintenanceHold ?? input.prior?.maintenanceHold ?? { active: false }`
held : Option MaintenanceHold → Option OperationalRuntimeProjection → MaintenanceHold
held (some hold) prior = hold
held none none = record { active = false; reason = none }
held none (some projection) = projection.maintenance_hold

-- `composeOperationalRuntimeProjection`
unfoldable pub compose_operational_runtime_projection :
    ProjectionInput → OperationalRuntimeProjection
unfolding held
compose_operational_runtime_projection input = record {
  updated_at = input.now;
  supervisor = input.supervisor;
  stage = input.stage;
  next_poll_at = input.next_poll_at;
  event_wake_eligible = input.event_wake_eligible;
  maintenance_hold = held input.maintenance_hold input.prior;
  ownership = (summarize input).ownership;
  checkpoint = (summarize input).checkpoint;
  active_writer = none;
  manual_lane = (summarize input).manual_lane;
}
