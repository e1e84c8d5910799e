-- ===== src/Admission/Revoked.antt =====
-- A token that is given back is not current any more.
use tachiko_conductor.Prelude.{
  some_injective, ℕ, ◌+◌, String, Bool, not, some, ◌≡◌, ◌≢◌, sym, ap, subst, ◌∙◌, ok, err, ◌>>◌,
  >>=-eq-ok, >>-eq-ok, arith, reject,
}
use tachiko_conductor.Admission.Types.{
  AdmissionToken, AdmissionStateError, LaneRecord, RegistryState,
}
use tachiko_conductor.Admission.Platform.{Platform}
use tachiko_conductor.Admission.Evidence.{Checked}
use tachiko_conductor.Admission.State.{lane_by_id}
use tachiko_conductor.Admission.Transact.{
  RegistryFile, present, Ports, Hooks, Step, kept, wrote, transact, put_lane, replace_lane,
  detached_lane_view, require_current_token, assert_no_active_delegates,
}
use tachiko_conductor.Admission.Operations.{release_lane, release_step}
use tachiko_conductor.Admission.Api.{after_checks, release}
use tachiko_conductor.Admission.Fencing.{lane_by_id-id, replace_lane-same}
use tachiko_conductor.Admission.Fenced.{Owns, IsOwner, owner-IsOwner}
use tachiko_conductor.Admission.Granted.{Did, left, put, transact-Did}

-- What a release returns: the revision, and the lane before and after.
abbrev Released : Type 0
Released = ℕ × LaneRecord × LaneRecord

release_step-wrote :
    (token : AdmissionToken) (now : String) (state : RegistryState) {step : Step Released}
    → release_step token now state ≡ ok step
    → (lane : LaneRecord) × (require_current_token state token ≡ ok lane)
      × (step
          ≡ wrote (put_lane state (release_lane lane now) "released" now) (
            state.revision + 1,
            detached_lane_view lane,
            detached_lane_view (release_lane lane now),
          ))
unfolding release_step
release_step-wrote token now state {step} h =
    let (lane, current, rest) =
      >>=-eq-ok (require_current_token state token)
        (λ lane.
          assert_no_active_delegates state lane
          >> ok (
              wrote (put_lane state (release_lane lane now) "released" now) (
                state.revision + 1,
                detached_lane_view lane,
                detached_lane_view (release_lane lane now),
              )))
        h in
    (lane, current, sym (ok_step ((>>-eq-ok (assert_no_active_delegates state lane) _ rest).1)))
  where
    ok_step : {x y : Step Released} → ◌≡◌ {A = Checked (Step Released)} (ok x) (ok y) → x ≡ y
    ok_step e = cc

-- The released lane does not own its old token.
released-Owns :
    (token : AdmissionToken) (now : String) (state : RegistryState) (lane : LaneRecord)
    → require_current_token state token ≡ ok lane
    → ¬ Owns token (present (put_lane state (release_lane lane now) "released" now))
unfolding Owns put_lane release_lane require_current_token
released-Owns token now state lane current (last, last_current) =
    let (found, owner) = owner-IsOwner token (lane_by_id token.lane_id state.lanes) current in
    let named : lane.lane_id ≡ token.lane_id = lane_by_id-id token.lane_id state.lanes found in
    let (last_found, last_owner) =
      owner-IsOwner token
        (lane_by_id token.lane_id (replace_lane state.lanes (release_lane lane now)))
        last_current in
    let stands : lane_by_id token.lane_id (replace_lane state.lanes (release_lane lane now))
        ≡ some (release_lane lane now) =
      ap (λ id. lane_by_id id (replace_lane state.lanes (release_lane lane now))) (sym named)
      ∙ replace_lane-same state.lanes (release_lane lane now) in
    let same : release_lane lane now ≡ last = some_injective (sym stands ∙ last_found) in
    later lane owner last_owner (ap (λ l. l.generation) same)
  where
    later :
        (lane : LaneRecord) {last : LaneRecord}
        → IsOwner token lane
        → IsOwner token last
        → lane.generation + 1 ≢ last.generation
    later lane own end e = absurd (omega (arith, own.generation, end.generation, e))

-- After a release that returns, the token that was released is not current.
pub release-revokes :
    (P : Platform) (ports : Ports) (hooks : Hooks Released) (token : AdmissionToken)
    (stopped : Bool) (now : String) (file : RegistryFile) {result : Released}
    → (release P ports hooks token stopped now file).1 ≡ ok result
    → ¬ Owns token ((release P ports hooks token stopped now file).0)
unfolding release after_checks
release-revokes P ports hooks token stopped now file {result} h =
    go (reject (not stopped) AdmissionStateError.not_stopped) h
  where
    kept-wrote : {r q : Released} {s : RegistryState} → ◌≢◌ {A = Step Released} (kept r) (wrote s q)
    kept-wrote e = cc

    wrote_state :
        {r q : Released} {s t : RegistryState}
        → ◌≡◌ {A = Step Released} (wrote s r) (wrote t q)
        → s ≡ t
    wrote_state e = cc

    revoked :
        {after : RegistryFile}
        → Did P ports hooks (release_step token now) file result after
        → ¬ Owns token after
    revoked (left before did) owns =
        let (lane, current, same) = release_step-wrote token now before did in kept-wrote same
    revoked (put before after did) owns =
        let (lane, current, same) = release_step-wrote token now before did in
        released-Owns token now before lane current
          (subst (λ s. Owns token (present s)) (wrote_state same) owns)

    go :
        (checked : Checked Unit)
        → (after_checks checked (λ _. transact P ports hooks (release_step token now)) file).1
          ≡ ok result
        → ¬ Owns token
            ((after_checks checked (λ _. transact P ports hooks (release_step token now)) file).0)
    go (err error) e = cc
    go (ok _) e = revoked (transact-Did P ports hooks (release_step token now) file e)
