-- ===== src/Admission/Fences.antt =====
-- src/mission-admission/registry.ts: `strengthen`, and the operations that run a caller's own work while
-- the registry stands still (`withLaneLock`, `withRunTransitionFence`, `withExactReleasedLane`,
-- `reconcileMergedRun`), as what they do in their transactions.
use Prim.Native.String.{◌++◌ as ◌<>◌}
use tachiko_conductor.Prelude.{
  String, string_eq, ℕ, ◌+◌, nat_eq, option_eq, Bool, not, ◌&&◌, ◌||◌, ◌==◌, Option, none, some,
  any, ok, err, ◌>>◌, ◌>>=◌, reject, if◌then◌else◌,
}
use tachiko_conductor.Admission.Types.{
  ParkedReason, MissionEvidence, AdmissionToken, LaneRecord, RegistryState, AdmissionStateError,
  role_eq, lane_status_eq, parked_reason_eq,
}
use tachiko_conductor.Admission.Platform.{Platform}
use tachiko_conductor.Admission.Evidence.{
  Checked, production, merge_evidence, same_evidence, shared_physical_surface, overlaps,
}
use tachiko_conductor.Admission.State.{
  is_active, is_parked, is_released, is_captain, is_delegate, is_experiment, is_from, lane_by_id,
}
use tachiko_conductor.Admission.Transact.{
  Step, kept, wrote, put_lane, detached_lane_view, require_current_token,
  assert_no_active_delegates,
}
use tachiko_conductor.Admission.Operations.{release_lane}

module _ (P : Platform) where
  -- An experiment that holds a surface of the stronger evidence.
  unfoldable pub blocks_experiment : LaneRecord → MissionEvidence → LaneRecord → Bool
  blocks_experiment lane strengthened other =
      not (other.lane_id == lane.lane_id)
      && not (is_released other)
      && is_experiment other
      && shared_physical_surface P other.evidence strengthened

  -- A reserved production lane, not the lane's own delegate, that claims some of it.
  unfoldable pub blocks_reserved : LaneRecord → MissionEvidence → LaneRecord → Bool
  blocks_reserved lane strengthened other =
      not (other.lane_id == lane.lane_id)
      && not (is_released other)
      && production other.role
      && overlaps P other.evidence strengthened
      && not (is_delegate other && is_from other lane)

  unfoldable pub strengthen_lane :
      RegistryState → LaneRecord → (now : String) → MissionEvidence → Checked (Step ℕ)
  unfolding blocks_experiment blocks_reserved
  strengthen_lane state lane now strengthened =
      let stronger : LaneRecord = record lane { evidence = strengthened; updated_at = now } in
      reject (any (blocks_experiment lane strengthened) state.lanes)
        AdmissionStateError.overlaps_experiment
      >> reject (any (blocks_reserved lane strengthened) state.lanes)
          AdmissionStateError.overlaps_reserved
      >> ok (
          if same_evidence lane.evidence strengthened
          then kept state.revision
          else wrote (put_lane state stronger "evidence_strengthened" now) (state.revision + 1))

  -- `strengthen`, on canonical evidence
  unfoldable pub strengthen_step :
      AdmissionToken → MissionEvidence → (now : String) → RegistryState → Checked (Step ℕ)
  unfolding strengthen_lane
  strengthen_step token evidence now state = require_current_token state token >>= λ lane.
      reject (not (is_captain lane)) AdmissionStateError.not_captain
      >> assert_no_active_delegates state lane
      >> (merge_evidence lane.evidence evidence >>= λ strengthened.
          strengthen_lane state lane now strengthened)

abbrev pub option_map : {A B : Type 0} → (A → B) → Option A → Option B
option_map f none = none
option_map f (some value) = some (f value)

-- `withLaneLock`: the caller's work, on what the registry says of the lane.
unfoldable pub lane_lock_step :
    {A : Type 0}
    → (lane_id : String) → (operation : Option LaneRecord → Checked A) → RegistryState
    → Checked (Step A)
lane_lock_step lane_id operation state =
    operation (option_map detached_lane_view (lane_by_id lane_id state.lanes)) >>= λ result.
    ok (kept result)

-- The lane of a run.
abbrev pub run_lane_id : String → String
run_lane_id run_id = "run:" <> run_id

-- The lane that has the identifier of the run's lane is that lane.
unfoldable pub is_lane_of_run : (run_id : String) → LaneRecord → Bool
is_lane_of_run run_id lane = is_captain lane && (lane.evidence.run == some run_id)

check_fence : (run_id : String) → Option LaneRecord → Checked Unit
unfolding is_lane_of_run
check_fence run_id none = ok tt
check_fence run_id (some lane) =
    reject (not (is_lane_of_run run_id lane)) AdmissionStateError.conflicting_identity
    >> reject (is_active lane || is_parked lane) AdmissionStateError.run_fenced

-- `withRunTransitionFence`
unfoldable pub run_fence_step :
    {A : Type 0} → (run_id : String) → (operation : Checked A) → RegistryState → Checked (Step A)
unfolding check_fence
run_fence_step run_id operation state =
    check_fence run_id (lane_by_id (run_lane_id run_id) state.lanes) >> operation >>= λ result.
    ok (kept result)

unfoldable pub released_exactly : ℕ → Option LaneRecord → Checked (Step LaneRecord)
released_exactly generation none = err AdmissionStateError.stale_receipt
released_exactly generation (some lane) =
    if is_released lane && (lane.generation == generation)
    then ok (kept (detached_lane_view lane))
    else err AdmissionStateError.stale_receipt

-- `withExactReleasedLane`
unfoldable pub exact_released_step :
    (lane_id : String) (generation : ℕ) → RegistryState → Checked (Step LaneRecord)
unfolding released_exactly
exact_released_step lane_id generation state =
    released_exactly generation (lane_by_id lane_id state.lanes)

-- What `reconcileMergedRun` finds: no lane, a parked lane that it releases, or a released lane.
pub data MergedLane : Type 0 where
  unadmitted : MergedLane
  parked : LaneRecord → MergedLane
  released : LaneRecord → MergedLane

unfoldable pub merged_lane :
    (run_id now : String) → RegistryState → Option LaneRecord → Checked (Step MergedLane)
unfolding is_lane_of_run
merged_lane run_id now state none = ok (kept MergedLane.unadmitted)
merged_lane run_id now state (some lane) =
    reject (not (is_lane_of_run run_id lane)) AdmissionStateError.conflicting_identity
    >> reject (is_active lane) AdmissionStateError.still_active
    >> (if is_parked lane
        then reject (not (lane.parked_reason == some ParkedReason.workflow_settled))
            AdmissionStateError.not_settled
          >> assert_no_active_delegates state lane
          >> ok (
              wrote (put_lane state (release_lane lane now) "merged_run_released" now)
                (MergedLane.parked (detached_lane_view lane)))
        else ok (kept (MergedLane.released (detached_lane_view lane))))

unfoldable pub reconcile_merged_step :
    (run_id now : String) → RegistryState → Checked (Step MergedLane)
unfolding merged_lane
reconcile_merged_step run_id now state =
    merged_lane run_id now state (lane_by_id (run_lane_id run_id) state.lanes)
