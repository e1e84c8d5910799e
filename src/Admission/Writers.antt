-- ===== src/Admission/Writers.antt =====
-- What `assertCanMutate` and the test of the registry say of a lane that may write.
use tachiko_conductor.Prelude.{
  some_injective, String, string_eq, nat_eq, option_eq, true, false, not, ◌&&◌, ◌==◌, some, List,
  [], ◌∷◌, any, ◌≡◌, sym, subst, inl, inr, ok, ◌>>=◌, reject, reject-eq-ok, >>=-eq-ok, >>-eq-ok,
  arith, Bool-cases, if◌then◌else◌,
}
use tachiko_conductor.Admission.Types.{
  AdmissionToken, AdmissionConfig, LaneRecord, RegistryState, role_eq, lane_status_eq,
}
use tachiko_conductor.Admission.Platform.{Platform}
use tachiko_conductor.Admission.Evidence.{Checked, mutation}
use tachiko_conductor.Admission.State.{
  is_active, is_captain, is_delegate, is_from, lane_by_id, validate_state,
}
use tachiko_conductor.Admission.Transact.{
  present, read_state, require_current_token, assert_no_active_delegates,
}
use tachiko_conductor.Admission.Api.{check_mutation, assert_can_mutate}
use tachiko_conductor.Admission.Fencing.{lane_by_id-id}
use tachiko_conductor.Admission.Fenced.{IsOwner, owner-IsOwner}
use tachiko_conductor.Admission.Valid.{Valid, validate-Valid, Mem, here, there}

-- The lane of an identifier has a place in the list.
pub lane_by_id-Mem :
    (id : String) (lanes : List LaneRecord) {lane : LaneRecord}
    → lane_by_id id lanes ≡ some lane
    → Mem lane lanes
lane_by_id-Mem id [] h = cc
lane_by_id-Mem id (item ∷ items) {lane} h = elim (Bool-cases (item.lane_id == id)) [
  | inl found ↦
      subst (λ l. Mem l (item ∷ items))
        (some_injective
          (subst (λ b. (if b then some item else lane_by_id id items) ≡ some lane) found h))
        here
  | inr passed ↦ there (
      lane_by_id-Mem id items
        (subst (λ b. (if b then some item else lane_by_id id items) ≡ some lane) passed h))
]

-- What the tests of `assertCanMutate` say.
pub record MayMutate (state : RegistryState) (token : AdmissionToken) (lane : LaneRecord)
    : Type 0 where
  pub stands : Mem lane state.lanes
  pub owner : IsOwner token lane
  pub named : lane.lane_id ≡ token.lane_id
  pub writes : mutation lane.role ≡ true
  pub alone :
      is_captain lane ≡ true
      → any (λ other. is_active other && is_delegate other && is_from other lane) state.lanes
        ≡ false

read_state-present :
    (P : Platform) (config : AdmissionConfig) (state : RegistryState) {read : RegistryState}
    → read_state P config false (present state) ≡ ok read
    → (read ≡ state) × (validate_state P state ≡ ok tt)
unfolding read_state
read_state-present P config state {read} h =
    let (checks, same) = >>-eq-ok _ (ok state) h in
    (ok_injective (sym same), (>>-eq-ok (validate_state P state) _ checks).0)
  where
    ok_injective : {s t : RegistryState} → ◌≡◌ {A = Checked RegistryState} (ok s) (ok t) → s ≡ t
    ok_injective h = cc

check_mutation-guards :
    (state : RegistryState) (lane : LaneRecord)
    → check_mutation state lane ≡ ok tt
    → (mutation lane.role ≡ true)
      × (is_captain lane ≡ true
          → any (λ other. is_active other && is_delegate other && is_from other lane) state.lanes
            ≡ false)
unfolding check_mutation assert_no_active_delegates
check_mutation-guards state lane h =
    let (before, alone) = >>-eq-ok _ _ h in
    let (writes, _) = >>-eq-ok (reject (not (mutation lane.role)) _) _ before in
    let refused : not (mutation lane.role) ≡ false = reject-eq-ok _ _ writes in
    (
      ground arith,
      λ captain. reject-eq-ok _ _ (
          subst (λ b. (if b then assert_no_active_delegates state lane else ok tt) ≡ ok tt) captain
            alone),
    )

pub may_mutate :
    (P : Platform) (config : AdmissionConfig) (state : RegistryState) (token : AdmissionToken)
    → assert_can_mutate P config token (present state) ≡ ok tt
    → Valid P state
      × (lane : LaneRecord) × (lane_by_id token.lane_id state.lanes ≡ some lane)
      × MayMutate state token lane
unfolding assert_can_mutate require_current_token
may_mutate P config state token h =
    let (read, loaded, rest) =
      >>=-eq-ok (read_state P config false (present state))
        (λ s. require_current_token s token >>= λ lane. check_mutation s lane) h in
    let (same, valid) = read_state-present P config state loaded in
    let (lane, current, tests) =
      >>=-eq-ok (require_current_token state token) (check_mutation state) (
        subst (λ s. (require_current_token s token >>= λ lane. check_mutation s lane) ≡ ok tt) same
          rest) in
    let (found, owner) = owner-IsOwner token (lane_by_id token.lane_id state.lanes) current in
    let (writes, alone) = check_mutation-guards state lane tests in
    (
      validate-Valid P state valid,
      lane,
      found,
      record {
        stands = lane_by_id-Mem token.lane_id state.lanes found;
        owner = owner;
        named = lane_by_id-id token.lane_id state.lanes found;
        writes = writes;
        alone = alone;
      },
    )
