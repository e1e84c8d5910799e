-- ===== src/Operational/Verdict.antt =====
-- src/operational/runtime-projection.ts: whether a projection agrees with itself, what may be concluded
-- from it about a restart, and the changes of the maintenance hold and of the manual lane. The file is
-- the projection that it holds, if it holds one; `Date.parse` is a parameter.
use Prim.Native.Char.{code}
use tachiko_conductor.Prelude.{
  String, string_eq, nat_eq, option_eq, Bool, true, false, not, ◌&&◌, ◌||◌, ◌==◌, leb, Option, none,
  some, Result, ok, err, if◌then◌else◌,
}
use tachiko_conductor.Admission.Platform.{non_empty, safe_positive, max_safe_integer, text_length}
use tachiko_conductor.Admission.Evidence.{fails, is_some}
use tachiko_conductor.Operational.Projection.{
  Supervisor, Ownership, Checkpoint, ManualState, ActiveWriter, ManualLane,
  OperationalRuntimeProjection, adverse_parked_lane, ownership_eq, checkpoint_eq, manual_state_eq,
}

is_hex : String → Bool
is_hex String.[] = true
is_hex (String.◌∷◌ c cs) =
    ((leb 48 (code c) && leb (code c) 57)
      || (leb 97 (code c) && leb (code c) 102)
      || (leb 65 (code c) && leb (code c) 70))
    && is_hex cs

unfoldable pub writer_is_valid : ActiveWriter → Bool
writer_is_valid writer =
    non_empty writer.run_id
    && non_empty writer.worktree
    && not (fails non_empty writer.worker)
    && not (fails safe_positive writer.issue)

unfoldable pub manual_lane_is_valid : ManualLane → Bool
unfolding is_hex
manual_lane_is_valid lane =
    non_empty lane.repository
    && non_empty lane.worktree
    && non_empty lane.branch
    && (text_length lane.checkpoint_sha == 40)
    && is_hex lane.checkpoint_sha
    && not (fails non_empty lane.lane_id)
    && not (fails non_empty lane.mission_id)
    && not (fails (λ revision. leb revision max_safe_integer) lane.admission_revision)

-- A lane that is the active manual lane.
unfoldable pub is_active_manual : Option ManualLane → Bool
is_active_manual none = false
is_active_manual (some lane) = lane.state == ManualState.active

-- What the summary says of owners agrees with their details.
unfoldable pub is_consistent : OperationalRuntimeProjection → Bool
is_consistent p =
    not (
      (is_active_manual p.manual_lane || is_some p.active_writer)
      && not (p.ownership == Ownership.active))
    && not (
        adverse_parked_lane p.manual_lane
        && (p.ownership == Ownership.unowned)
        && (p.checkpoint == Checkpoint.durable))

pub data RestartVerdict : Type 0 where
  cannot_prove_safe wait_for_checkpoint window_not_guaranteed safe_to_restart : RestartVerdict

module _ (canonical_timestamp : String → Bool) where
  -- `isOperationalRuntimeProjection`
  unfoldable pub is_operational_runtime_projection : OperationalRuntimeProjection → Bool
  is_operational_runtime_projection p =
      canonical_timestamp p.updated_at
      && non_empty p.stage
      && not (fails canonical_timestamp p.next_poll_at)
      && not (fails non_empty p.maintenance_hold.reason)
      && not (fails writer_is_valid p.active_writer)
      && not (fails manual_lane_is_valid p.manual_lane)
      && is_consistent p

  -- `restartVerdict`, on a projection that is there
  unfoldable pub verdict_of : OperationalRuntimeProjection → RestartVerdict
  verdict_of p =
      if not (is_operational_runtime_projection p)
      then RestartVerdict.cannot_prove_safe
      else if p.ownership == Ownership.active
      then RestartVerdict.wait_for_checkpoint
      else if not (p.ownership == Ownership.unowned) || not (p.checkpoint == Checkpoint.durable)
      then RestartVerdict.cannot_prove_safe
      else if not p.maintenance_hold.active
      then RestartVerdict.window_not_guaranteed
      else RestartVerdict.safe_to_restart

  unfoldable pub restart_verdict : Option OperationalRuntimeProjection → RestartVerdict
  unfolding verdict_of
  restart_verdict none = RestartVerdict.cannot_prove_safe
  restart_verdict (some p) = verdict_of p

  -- `readOperationalRuntimeProjection`: a projection that does not agree with itself is not read.
  unfoldable pub read_operational_runtime_projection :
      Option OperationalRuntimeProjection → Option OperationalRuntimeProjection
  read_operational_runtime_projection none = none
  read_operational_runtime_projection (some p) =
      if is_operational_runtime_projection p then some p else none

-- What is written in place of a projection that could not be read.
abbrev absent_projection : OperationalRuntimeProjection
absent_projection = record {
  updated_at = "";
  supervisor = Supervisor.stopped;
  stage = "idle";
  next_poll_at = none;
  event_wake_eligible = false;
  maintenance_hold = record { active = false; reason = none };
  ownership = Ownership.ambiguous;
  checkpoint = Checkpoint.unknown;
  active_writer = none;
  manual_lane = none;
}

abbrev or_absent : Option OperationalRuntimeProjection → OperationalRuntimeProjection
or_absent none = absent_projection
or_absent (some p) = p

-- `setMaintenanceHold`, from what was read to what is written
unfoldable pub set_maintenance_hold :
    (prior : Option OperationalRuntimeProjection)
    → Bool
    → (now reason : String) → OperationalRuntimeProjection
set_maintenance_hold prior active now reason = record (or_absent prior) {
  updated_at = now;
  supervisor = if active then Supervisor.parked else (or_absent prior).supervisor;
  stage = if active then "maintenance_hold" else (or_absent prior).stage;
  event_wake_eligible = false;
  maintenance_hold = record { active = active; reason = if active then some reason else none };
}

-- `registerManualLane`
unfoldable pub register_manual_lane :
    (prior : Option OperationalRuntimeProjection)
    → ManualLane
    → (now : String) → OperationalRuntimeProjection
register_manual_lane prior lane now = record {
  updated_at = now;
  supervisor = supervisor_or_parked prior;
  stage = if lane.state == ManualState.active then "manual_implementation" else "manual_parked";
  next_poll_at = (or_absent prior).next_poll_at;
  event_wake_eligible = false;
  maintenance_hold = (or_absent prior).maintenance_hold;
  ownership =
      if lane.state == ManualState.active
      then Ownership.active
      else if lane.recoverable && lane.clean
      then Ownership.unowned
      else Ownership.ambiguous;
  checkpoint = if lane.recoverable && lane.clean then Checkpoint.durable else Checkpoint.unknown;
  active_writer = none;
  manual_lane = some lane;
}
  where
    supervisor_or_parked : Option OperationalRuntimeProjection → Supervisor
    supervisor_or_parked none = Supervisor.parked
    supervisor_or_parked (some p) = p.supervisor

pub data RetireError : Type 0 where
  other_lane : RetireError

names_lane : Option ManualLane → String → Bool
names_lane none lane_id = false
names_lane (some lane) lane_id = lane.lane_id == some lane_id

-- `retireManualLane`
unfoldable pub retire_manual_lane :
    (prior : Option OperationalRuntimeProjection)
    → (lane_id now : String) → Result RetireError OperationalRuntimeProjection
unfolding names_lane
retire_manual_lane none lane_id now = err RetireError.other_lane
retire_manual_lane (some prior) lane_id now =
    if not (is_some prior.manual_lane)
      && (prior.ownership == Ownership.unowned)
      && (prior.checkpoint == Checkpoint.durable)
    then ok prior
    else if names_lane prior.manual_lane lane_id
    then ok (record prior {
      updated_at = now;
      supervisor = Supervisor.parked;
      stage = "idle";
      event_wake_eligible = false;
      ownership = Ownership.unowned;
      checkpoint = Checkpoint.durable;
      manual_lane = none;
    })
    else err RetireError.other_lane
