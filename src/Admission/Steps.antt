-- ===== src/Admission/Steps.antt =====
-- The operations of the registry after an admission advance its lanes.
use tachiko_conductor.Prelude.{
  String, string_eq, ℕ, nat_eq, option_eq, ◌&&◌, ◌==◌, Option, none, some, ◌≡◌, refl, inl, inr, ok,
  arith,
}
use tachiko_conductor.Admission.Types.{
  ParkedReason, MissionEvidence, AdmissionToken, LaneRecord, RegistryState,
}
use tachiko_conductor.Admission.Platform.{Platform}
use tachiko_conductor.Admission.Evidence.{Checked, same_evidence}
use tachiko_conductor.Admission.State.{is_released, is_parked, lane_by_id}
use tachiko_conductor.Admission.Transact.{current_of, require_current_token}
use tachiko_conductor.Admission.Operations.{
  park_step, release_step, renew_step, park_manual_step, retire_manual_step, release_parked_step,
  park_lane, release_lane, renew_lane, released_from, retire_lane, release_parked_lane,
}
use tachiko_conductor.Admission.Fences.{
  strengthen_lane, released_exactly, merged_lane, run_lane_id, strengthen_step, lane_lock_step,
  run_fence_step, exact_released_step, reconcile_merged_step,
}
use tachiko_conductor.Admission.Rules.{
  Keeps, >>=-Keeps, >>-Keeps, kept-Keeps, kept_after-Keeps, err-Keeps, if-Keeps, ok_if-Keeps,
  wrote-Keeps, replace-Advances, next-Keeps,
}

-- The lane of a current token stands in the registry.
pub current-found :
    (state : RegistryState) (token : AdmissionToken) {lane : LaneRecord}
    → require_current_token state token ≡ ok lane
    → lane_by_id token.lane_id state.lanes ≡ some lane
unfolding require_current_token current_of
current-found state token {lane} current = go (lane_by_id token.lane_id state.lanes) current
  where
    go : (o : Option LaneRecord) → current_of token o ≡ ok lane → o ≡ some lane
    go none h = cc
    go (some other) h = ground arith

pub park_step-Keeps :
    (token : AdmissionToken) (reason : ParkedReason) (now : String) (state : RegistryState)
    → Keeps state.lanes (park_step token reason now state)
unfolding park_step park_lane
park_step-Keeps token reason now state = >>=-Keeps (λ lane current. >>-Keeps _ (
    next-Keeps _ _ state lane (park_lane lane reason now) token.lane_id
      (current-found state token current) refl (inl (omega arith))))

pub release_step-Keeps :
    (token : AdmissionToken) (now : String) (state : RegistryState)
    → Keeps state.lanes (release_step token now state)
unfolding release_step release_lane
release_step-Keeps token now state = >>=-Keeps (λ lane current. >>-Keeps _ (
    next-Keeps _ _ state lane (release_lane lane now) token.lane_id
      (current-found state token current) refl (inl (omega arith))))

pub park_manual_step-Keeps :
    (token : AdmissionToken) (worktree now : String) (state : RegistryState)
    → Keeps state.lanes (park_manual_step token worktree now state)
unfolding park_manual_step park_lane
park_manual_step-Keeps token worktree now state = >>=-Keeps (λ lane current. >>-Keeps _ (
    next-Keeps _ _ state lane (park_lane lane ParkedReason.manual_checkpoint now) token.lane_id
      (current-found state token current) refl (inl (omega arith))))

renew_lane-Keeps :
    (state : RegistryState) (token : AdmissionToken) (now : String) (lane : LaneRecord)
    → require_current_token state token ≡ ok lane
    → (held : AdmissionToken) → Keeps state.lanes (renew_lane state lane now held)
unfolding renew_lane
renew_lane-Keeps state token now lane current held =
    ok_if-Keeps (lane.updated_at == now) kept-Keeps (
      wrote-Keeps (
        replace-Advances state.lanes lane (record lane { updated_at = now }) token.lane_id
          (current-found state token current) refl (inr (refl, refl, refl))))

pub renew_step-Keeps :
    (token : AdmissionToken) (now : String) (state : RegistryState)
    → Keeps state.lanes (renew_step token now state)
unfolding renew_step
renew_step-Keeps token now state =
    >>=-Keeps
      (λ lane current. >>=-Keeps (λ held _. renew_lane-Keeps state token now lane current held))

pub retire_manual_step-Keeps :
    (lane_id : String) (generation : ℕ) (worktree now : String) (state : RegistryState)
    → Keeps state.lanes (retire_manual_step lane_id generation worktree now state)
unfolding retire_manual_step retire_lane release_lane
retire_manual_step-Keeps lane_id generation worktree now state =
    go (lane_by_id lane_id state.lanes) refl
  where
    go :
        (found : Option LaneRecord)
        → lane_by_id lane_id state.lanes ≡ found
        → Keeps state.lanes (retire_lane state generation worktree now found)
    go none at = err-Keeps
    go (some lane) at = if-Keeps (released_from generation lane) kept-Keeps (
        >>-Keeps _
          (next-Keeps _ _ state lane (release_lane lane now) lane_id at refl (inl (omega arith))))

pub release_parked_step-Keeps :
    (lane_id : String) (generation : ℕ) (now : String) (state : RegistryState)
    → Keeps state.lanes (release_parked_step lane_id generation now state)
unfolding release_parked_step release_parked_lane release_lane
release_parked_step-Keeps lane_id generation now state = go (lane_by_id lane_id state.lanes) refl
  where
    go :
        (found : Option LaneRecord)
        → lane_by_id lane_id state.lanes ≡ found
        → Keeps state.lanes (release_parked_lane state generation now found)
    go none at = err-Keeps
    go (some lane) at = if-Keeps (released_from generation lane) kept-Keeps (
        >>-Keeps _
          (next-Keeps _ _ state lane (release_lane lane now) lane_id at refl (inl (omega arith))))

strengthen_lane-Keeps :
    (P : Platform) (state : RegistryState) (token : AdmissionToken) (now : String)
    (lane : LaneRecord)
    → require_current_token state token ≡ ok lane
    → (strengthened : MissionEvidence)
    → Keeps state.lanes (strengthen_lane P state lane now strengthened)
unfolding strengthen_lane
strengthen_lane-Keeps P state token now lane current strengthened = >>-Keeps _ (
    ok_if-Keeps (same_evidence lane.evidence strengthened) kept-Keeps (
      next-Keeps _ _ state lane (record lane { evidence = strengthened; updated_at = now })
        token.lane_id (current-found state token current) refl (inr (refl, refl, refl))))

pub strengthen_step-Keeps :
    (P : Platform) (token : AdmissionToken) (evidence : MissionEvidence) (now : String)
    (state : RegistryState)
    → Keeps state.lanes (strengthen_step P token evidence now state)
unfolding strengthen_step
strengthen_step-Keeps P token evidence now state = >>=-Keeps (λ lane current. >>-Keeps _ (
    >>=-Keeps
      (λ strengthened _. strengthen_lane-Keeps P state token now lane current strengthened)))

pub lane_lock_step-Keeps :
    {A : Type 0} (lane_id : String) (operation : Option LaneRecord → Checked A)
    (state : RegistryState)
    → Keeps state.lanes (lane_lock_step lane_id operation state)
unfolding lane_lock_step
lane_lock_step-Keeps lane_id operation state = kept_after-Keeps _

pub run_fence_step-Keeps :
    {A : Type 0} (run_id : String) (operation : Checked A) (state : RegistryState)
    → Keeps state.lanes (run_fence_step run_id operation state)
unfolding run_fence_step
run_fence_step-Keeps run_id operation state = kept_after-Keeps _

pub exact_released_step-Keeps :
    (lane_id : String) (generation : ℕ) (state : RegistryState)
    → Keeps state.lanes (exact_released_step lane_id generation state)
unfolding exact_released_step released_exactly
exact_released_step-Keeps lane_id generation state = go (lane_by_id lane_id state.lanes)
  where
    go : (found : Option LaneRecord) → Keeps state.lanes (released_exactly generation found)
    go none = err-Keeps
    go (some lane) =
        if-Keeps (is_released lane && (lane.generation == generation)) kept-Keeps err-Keeps

pub reconcile_merged_step-Keeps :
    (run_id now : String) (state : RegistryState)
    → Keeps state.lanes (reconcile_merged_step run_id now state)
unfolding reconcile_merged_step merged_lane release_lane
reconcile_merged_step-Keeps run_id now state = go (lane_by_id (run_lane_id run_id) state.lanes) refl
  where
    go :
        (found : Option LaneRecord)
        → lane_by_id (run_lane_id run_id) state.lanes ≡ found
        → Keeps state.lanes (merged_lane run_id now state found)
    go none at = kept-Keeps
    go (some lane) at = >>-Keeps _ (
        if-Keeps (is_parked lane)
          (>>-Keeps _ (
            next-Keeps _ _ state lane (release_lane lane now) (run_lane_id run_id) at refl
              (inl (omega arith))))
          kept-Keeps)
