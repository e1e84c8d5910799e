-- ===== src/Admission/Transact.antt =====
-- src/mission-admission/registry.ts: a transaction on the registry file. The lock, the directory and
-- the bytes of the file are left out: a transaction runs alone on the registry that the file holds.
use tachiko_conductor.Prelude.{
  String, string_eq, nat_eq, option_eq, ◌+◌, Bool, true, false, not, ◌&&◌, ◌==◌, Option, none, some,
  List, [], ◌∷◌, any, ok, err, ◌>>◌, ◌>>=◌, reject, if◌then◌else◌,
}
use tachiko_conductor.Admission.Types.{
  AdmissionConfig, AdmissionToken, LaneRecord, RegistryState, AdmissionStateError,
}
use tachiko_conductor.Admission.Platform.{Platform}
use tachiko_conductor.Admission.Evidence.{Checked}
use tachiko_conductor.Admission.State.{is_active, is_delegate, is_from, validate_state, lane_by_id}

pub data RegistryFile : Type 0 where
  missing unreadable : RegistryFile
  present : RegistryState → RegistryFile

-- Where a transaction asks again whether it may go on.
pub data Moment : Type 0 where
  before_read before_operation before_receipt before_write before_finalize : Moment

-- What the registry's owner composes into every transaction.
pub record Ports : Type 0 where
  pub config : AdmissionConfig
  pub assert_ordinary_mutation : Moment → Checked Unit
  pub before_publish : Checked Unit

-- The callbacks of one operation.
pub record Hooks (A : Type 0) : Type 0 where
  pub before_state_publish : A → Checked Unit
  pub after_publish : Option (A → Checked Unit)
  pub validate_before_publish : A → Checked Unit
  pub before_state_publish_on_noop : Bool
  pub owned_cleanup : Bool

-- What an operation makes of a registry: it leaves the registry as it is, or mutates it.
pub data Step (A : Type 0) : Type 0 where
  kept : A → Step A
  wrote : RegistryState → A → Step A

unfoldable pub initial_state : AdmissionConfig → RegistryState
initial_state config = record { revision = 0; config = config; lanes = []; last_transition = none }

-- The persisted configuration is not the one in use.
config_differs : (persisted config : AdmissionConfig) → Bool
config_differs persisted config = not (
    (persisted.revision == config.revision)
    && (persisted.limits.max_captains == config.limits.max_captains)
    && (persisted.limits.max_writers == config.limits.max_writers)
    && (persisted.limits.max_high_autonomy == config.limits.max_high_autonomy)
    && (persisted.limits.max_per_repository == config.limits.max_per_repository))

-- `readState`, and the part of `transact` that reads, which needs no file.
unfoldable pub read_state :
    Platform → AdmissionConfig → (require_existing : Bool) → RegistryFile → Checked RegistryState
unfolding config_differs
read_state P config true missing = err AdmissionStateError.missing_registry
read_state P config false missing = ok (initial_state config)
read_state P config require_existing unreadable = err AdmissionStateError.unreadable_registry
read_state P config require_existing (present state) =
    validate_state P state
    >> reject (config_differs state.config config) AdmissionStateError.config_differs
    >> ok state

module _ {A : Type 0} (P : Platform) (ports : Ports) (hooks : Hooks A) where
  unfoldable pub assert_authority : Moment → Checked Unit
  assert_authority moment =
      if hooks.owned_cleanup then ok tt else ports.assert_ordinary_mutation moment

  -- What is published, if anything is, and the result.
  unfoldable pub publish : RegistryState → Step A → Checked (Option RegistryState × A)
  unfolding assert_authority
  publish before (kept result) =
      if hooks.before_state_publish_on_noop
      then validate_state P before
        >> assert_authority before_receipt
        >> hooks.before_state_publish result
        >> ok (none, result)
      else ok (none, result)
  publish before (wrote state result) =
      validate_state P state
      >> assert_authority before_receipt
      >> hooks.before_state_publish result
      >> ports.before_publish
      >> hooks.validate_before_publish result
      >> assert_authority before_write
      >> ok (some state, result)

  unfoldable pub finalize : Option (A → Checked Unit) → A → Checked A
  unfolding assert_authority
  finalize none result = ok result
  finalize (some after) result = assert_authority before_finalize >> after result >> ok result

  -- The file after the transaction, and the transaction's result.
  unfoldable pub settle :
      RegistryFile → Checked (Option RegistryState × A) → RegistryFile × Checked A
  unfolding finalize
  settle file (err error) = (file, err error)
  settle file (ok (none, result)) = (file, finalize hooks.after_publish result)
  settle file (ok (some state, result)) = (present state, finalize hooks.after_publish result)

  unfoldable pub attempt :
      (RegistryState → Checked (Step A)) → RegistryFile → Checked (Option RegistryState × A)
  unfolding assert_authority publish
  attempt operation file =
      assert_authority before_read >> read_state P ports.config false file >>= λ state.
      assert_authority before_operation >> operation state >>= λ step. publish state step

  -- `transact`
  unfoldable pub transact :
      (RegistryState → Checked (Step A)) → RegistryFile → RegistryFile × Checked A
  unfolding settle attempt
  transact operation file = settle file (attempt operation file)

-- `detachedLaneView`: a lane without its token.
unfoldable pub detached_lane_view : LaneRecord → LaneRecord
detached_lane_view lane = record lane { token = none }

-- `findIndex`, then replace or push.
unfoldable pub replace_lane : List LaneRecord → LaneRecord → List LaneRecord
replace_lane [] lane = lane ∷ []
replace_lane (item ∷ items) lane =
    let rest = replace_lane items lane in
    if item.lane_id == lane.lane_id then lane ∷ items else item ∷ rest

-- A lane's new record, with the revision and the last transition that go with it.
unfoldable pub put_lane : RegistryState → LaneRecord → (kind now : String) → RegistryState
unfolding replace_lane
put_lane state lane kind now = record state {
  lanes = replace_lane state.lanes lane;
  revision = state.revision + 1;
  last_transition = some (record { kind = kind; lane_id = some lane.lane_id; at_time = now });
}

unfoldable pub token_of : LaneRecord → Option String → Checked AdmissionToken
token_of lane none = err AdmissionStateError.missing_token
token_of lane (some token) =
    ok (record { lane_id = lane.lane_id; generation = lane.generation; token = token })

-- `tokenRecord`
unfoldable pub token_record : LaneRecord → Checked AdmissionToken
unfolding token_of
token_record lane = token_of lane lane.token

unfoldable pub current_of : AdmissionToken → Option LaneRecord → Checked LaneRecord
current_of token none = err AdmissionStateError.stale_token
current_of token (some lane) =
    if is_active lane && (lane.generation == token.generation) && (lane.token == some token.token)
    then ok lane
    else err AdmissionStateError.stale_token

-- `requireCurrentToken`
unfoldable pub require_current_token : RegistryState → AdmissionToken → Checked LaneRecord
unfolding current_of
require_current_token state token = current_of token (lane_by_id token.lane_id state.lanes)

-- `assertNoActiveDelegates`
unfoldable pub assert_no_active_delegates : RegistryState → LaneRecord → Checked Unit
assert_no_active_delegates state captain =
    reject (any (λ lane. is_active lane && is_delegate lane && is_from lane captain) state.lanes)
      AdmissionStateError.delegate_active
