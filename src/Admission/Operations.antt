-- ===== src/Admission/Operations.antt =====
-- src/mission-admission/registry.ts: what the owner of a lane does with it after its admission:
-- `strengthen`, `renew`, `park`, `parkManual` and `release`; and `retireManual`, `releaseParked`,
-- `withExactReleasedLane`, `withLaneLock`, `withRunTransitionFence` and `reconcileMergedRun`.
use Prim.Native.Char.{code}
use tachiko_conductor.Prelude.{
  String, string_eq, ℕ, ◌+◌, nat_eq, option_eq, bool_eq, Bool, true, not, ◌&&◌, ◌||◌, ◌==◌, leb,
  Option, none, some, ok, err, ◌>>◌, ◌>>=◌, reject, if◌then◌else◌,
}
use tachiko_conductor.Admission.Types.{
  MissionAdmissionStatus, ParkedReason, AdmissionToken, LaneRecord, RegistryState,
  AdmissionStateError, role_eq, lane_status_eq, parked_reason_eq, reason_text,
}
use tachiko_conductor.Admission.Platform.{non_empty, text_length}
use tachiko_conductor.Admission.Evidence.{Checked}
use tachiko_conductor.Admission.State.{is_parked, is_released, is_captain, is_delegate, lane_by_id}
use tachiko_conductor.Admission.Transact.{
  Step, kept, wrote, put_lane, replace_lane, detached_lane_view, token_record,
  require_current_token, assert_no_active_delegates,
}

-- A lane that is parked or released: its token is gone, and its generation is the next one.
unfoldable pub park_lane : LaneRecord → ParkedReason → (now : String) → LaneRecord
park_lane lane reason now = record lane {
  status = MissionAdmissionStatus.parked;
  token = none;
  generation = lane.generation + 1;
  parked_reason = some reason;
  updated_at = now;
}

unfoldable pub release_lane : LaneRecord → (now : String) → LaneRecord
release_lane lane now = record lane {
  status = MissionAdmissionStatus.released;
  token = none;
  generation = lane.generation + 1;
  parked_reason = none;
  updated_at = now;
}

-- The proof that a manual lane has stopped.
pub record ManualProof : Type 0 where
  pub worktree : String
  pub branch : String
  pub checkpoint_sha : String
  pub clean : Bool
  pub stopped : Bool

is_hexadecimal : String → Bool
is_hexadecimal String.[] = true
is_hexadecimal (String.◌∷◌ c cs) =
    ((leb 48 (code c) && leb (code c) 57)
      || (leb 97 (code c) && leb (code c) 102)
      || (leb 65 (code c) && leb (code c) 70))
    && is_hexadecimal cs

-- `/^[a-f0-9]{7,64}$/i`
is_checkpoint : String → Bool
unfolding is_hexadecimal
is_checkpoint sha = is_hexadecimal sha && leb 7 (text_length sha) && leb (text_length sha) 64

unfoldable pub proof_is_complete : ManualProof → Bool
unfolding is_checkpoint
proof_is_complete proof =
    proof.clean && proof.stopped && non_empty proof.branch && is_checkpoint proof.checkpoint_sha

-- The lane is the manual lane of the repository in the worktree.
unfoldable pub is_manual : LaneRecord → (worktree : String) → Bool
is_manual lane worktree =
    is_captain lane && lane.evidence.repository_scope && (lane.evidence.workspace == some worktree)

-- `park`
unfoldable pub park_step :
    AdmissionToken → ParkedReason → (now : String) → RegistryState → Checked (Step ℕ)
park_step token reason now state = require_current_token state token >>= λ lane.
    reject (is_delegate lane) AdmissionStateError.delegate_cannot_park
    >> assert_no_active_delegates state lane
    >> reject (reason == ParkedReason.manual_checkpoint) AdmissionStateError.invalid_park_reason
    >> ok (
        wrote (put_lane state (park_lane lane reason now) (reason_text reason) now)
          (state.revision + 1))

-- `release`
unfoldable pub release_step :
    AdmissionToken → (now : String) → RegistryState → Checked (Step (ℕ × LaneRecord × LaneRecord))
release_step token now state = require_current_token state token >>= λ lane.
    assert_no_active_delegates state lane
    >> ok (
        wrote (put_lane state (release_lane lane now) "released" now)
          (state.revision + 1, detached_lane_view lane, detached_lane_view (release_lane lane now)))

-- `renew`: the time alone may change.
unfoldable pub renew_lane :
    RegistryState → LaneRecord → (now : String) → AdmissionToken → Checked (Step AdmissionToken)
unfolding replace_lane
renew_lane state lane now current =
    let renewed : LaneRecord = record lane { updated_at = now } in
    ok (
      if lane.updated_at == now
      then kept current
      else wrote (record state { lanes = replace_lane state.lanes renewed }) current)

unfoldable pub renew_step :
    AdmissionToken → (now : String) → RegistryState → Checked (Step AdmissionToken)
unfolding renew_lane
renew_step token now state = require_current_token state token >>= λ lane.
    token_record (record lane { updated_at = now }) >>= λ current. renew_lane state lane now current

-- `parkManual`
unfoldable pub park_manual_step :
    AdmissionToken → (worktree now : String) → RegistryState → Checked (Step ℕ)
park_manual_step token worktree now state = require_current_token state token >>= λ lane.
    assert_no_active_delegates state lane
    >> reject (not (is_manual lane worktree)) AdmissionStateError.proof_mismatch
    >> ok (
        wrote
          (put_lane state (park_lane lane ParkedReason.manual_checkpoint now) "manual_checkpoint"
            now)
          (state.revision + 1))

-- The lane is released already, from the generation that the caller expects.
abbrev pub released_from : ℕ → LaneRecord → Bool
released_from generation lane = is_released lane && (lane.generation == generation + 1)

-- `retireManual`
unfoldable pub retire_lane :
    RegistryState
    → (generation : ℕ) → (worktree now : String) → Option LaneRecord
    → Checked (Step ℕ)
retire_lane state generation worktree now none = err AdmissionStateError.stale_receipt
retire_lane state generation worktree now (some lane) =
    if released_from generation lane
    then ok (kept state.revision)
    else reject
        (not (
          is_parked lane
          && (lane.generation == generation)
          && (lane.parked_reason == some ParkedReason.manual_checkpoint)
          && is_manual lane worktree))
        AdmissionStateError.stale_receipt
      >> assert_no_active_delegates state lane
      >> ok
          (wrote (put_lane state (release_lane lane now) "manual_retired" now) (state.revision + 1))

unfoldable pub retire_manual_step :
    (lane_id : String) (generation : ℕ) (worktree now : String) → RegistryState → Checked (Step ℕ)
unfolding retire_lane
retire_manual_step lane_id generation worktree now state =
    retire_lane state generation worktree now (lane_by_id lane_id state.lanes)

-- `releaseParked`: the revision, the parked lane where it is released now, and the released lane.
unfoldable pub release_parked_lane :
    RegistryState
    → (generation : ℕ) → (now : String) → Option LaneRecord
    → Checked (Step (ℕ × Option LaneRecord × LaneRecord))
release_parked_lane state generation now none = err AdmissionStateError.stale_receipt
release_parked_lane state generation now (some lane) =
    if released_from generation lane
    then ok (kept (state.revision, none, detached_lane_view lane))
    else reject
        (not (
          is_parked lane
          && (lane.generation == generation)
          && is_captain lane
          && not (lane.parked_reason == some ParkedReason.manual_checkpoint)))
        AdmissionStateError.stale_receipt
      >> ok (
          wrote (put_lane state (release_lane lane now) "operator_stopped_release" now) (
            state.revision + 1,
            some (detached_lane_view lane),
            detached_lane_view (release_lane lane now),
          ))

unfoldable pub release_parked_step :
    (lane_id : String) (generation : ℕ) (now : String)
    → RegistryState
    → Checked (Step (ℕ × Option LaneRecord × LaneRecord))
unfolding release_parked_lane
release_parked_step lane_id generation now state =
    release_parked_lane state generation now (lane_by_id lane_id state.lanes)
