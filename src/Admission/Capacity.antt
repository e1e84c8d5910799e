-- ===== src/Admission/Capacity.antt =====
-- The limits of the host hold in every registry that the operations make of no registry.
use tachiko_conductor.Prelude.{ℕ, nat_eq, ◌≤◌, false, ◌||◌, ltb, length, ◌≡◌, arith, string_eq}
use tachiko_conductor.Admission.Types.{LaneRecord, RegistryState}
use tachiko_conductor.Admission.Platform.{Platform}
use tachiko_conductor.Admission.State.{
  is_captain, count, active_lanes, writer_missions, high_autonomy_missions, over_capacity,
}
use tachiko_conductor.Admission.Transact.{missing, present}
use tachiko_conductor.Admission.History.{Runs, Runs-Leads}
use tachiko_conductor.Admission.Valid.{Valid, validate-Valid, Mem, one_lane}

-- The registry keeps to the limits of its configuration, and an identifier names one lane.
pub record IsWithinLimits (state : RegistryState) : Type 0 where
  pub captains : count is_captain (active_lanes state) ≤ state.config.limits.max_captains
  pub writers : length (writer_missions state) ≤ state.config.limits.max_writers
  pub autonomy : length (high_autonomy_missions state) ≤ state.config.limits.max_high_autonomy
  pub unique :
      (a b : LaneRecord) → Mem a state.lanes → Mem b state.lanes → a.lane_id ≡ b.lane_id → a ≡ b

limits : (a b c x y z : ℕ) → (ltb x a || ltb y b || ltb z c) ≡ false → (a ≤ x) × (b ≤ y) × (c ≤ z)
limits a b c x y z h = (ground arith, ground arith, ground arith)

-- Whatever sequence of operations makes a registry, starting without a file, the registry keeps to its
-- limits on active captains, on missions with an active writer and on missions with active high
-- autonomy, and no two of its lanes have one identifier.
pub Runs-IsWithinLimits :
    (P : Platform) (state : RegistryState) → Runs P missing (present state) → IsWithinLimits state
unfolding over_capacity
Runs-IsWithinLimits P state runs =
    let valid : Valid P state = validate-Valid P state ((Runs-Leads P runs).valid tt) in
    let (captains, writers, autonomy) =
      limits (count is_captain (active_lanes state)) (length (writer_missions state))
        (length (high_autonomy_missions state)) state.config.limits.max_captains
        state.config.limits.max_writers state.config.limits.max_high_autonomy valid.capacity in
    record {
      captains = captains;
      writers = writers;
      autonomy = autonomy;
      unique = one_lane P state valid;
    }
