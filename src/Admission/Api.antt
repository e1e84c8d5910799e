-- ===== src/Admission/Api.antt =====
-- src/mission-admission/registry.ts: the methods of the registry around their transactions. The hooks
-- that a method composes of its callbacks are an argument.
use tachiko_conductor.Prelude.{
  String, string_eq, ℕ, nat_eq, Bool, false, not, if◌then◌else◌, ◌&&◌, ◌||◌, ◌==◌, Option, ok, err,
  ◌>>◌, ◌>>=◌, reject, is_blank,
}
use tachiko_conductor.Admission.Types.{
  ParkedReason, MissionEvidence, AdmissionToken, AdmissionConfig, LaneRecord, RegistryState,
  AdmissionStateError, role_eq,
}
use tachiko_conductor.Admission.Platform.{Platform, safe_positive, canonical_path}
use tachiko_conductor.Admission.Evidence.{
  Checked, is_some, mutation, canonicalize_mission_evidence, or_throw,
}
use tachiko_conductor.Admission.State.{is_captain, lane_by_id}
use tachiko_conductor.Admission.Transact.{
  Ports, Hooks, RegistryFile, transact, detached_lane_view, read_state, require_current_token,
  assert_no_active_delegates,
}
use tachiko_conductor.Admission.Operations.{
  ManualProof, proof_is_complete, park_step, release_step, renew_step, park_manual_step,
  retire_manual_step, release_parked_step,
}
use tachiko_conductor.Admission.Fences.{
  MergedLane, option_map, strengthen_step, lane_lock_step, run_fence_step, exact_released_step,
  reconcile_merged_step,
}

-- A method that tests its arguments first, and goes on to its transaction with what they make.
unfoldable pub after_checks :
    {A B : Type 0}
    → Checked A
    → (A → RegistryFile → RegistryFile × Checked B)
    → RegistryFile
    → RegistryFile × Checked B
after_checks (err error) transaction file = (file, err error)
after_checks (ok value) transaction file = transaction value file

module _ (P : Platform) (ports : Ports) where
  unfoldable pub strengthen :
      Hooks ℕ
      → AdmissionToken
      → MissionEvidence
      → (now : String) → RegistryFile
      → RegistryFile × Checked ℕ
  strengthen hooks token evidence now file =
      after_checks (canonicalize_mission_evidence P evidence)
        (λ canonical. transact P ports hooks (strengthen_step P token canonical now)) file

  unfoldable pub renew :
      Hooks AdmissionToken
      → AdmissionToken
      → (now : String) → RegistryFile
      → RegistryFile × Checked AdmissionToken
  renew hooks token now file = transact P ports hooks (renew_step token now) file

  unfoldable pub park :
      Hooks ℕ
      → AdmissionToken
      → ParkedReason
      → (now : String) → RegistryFile
      → RegistryFile × Checked ℕ
  park hooks token reason now file = transact P ports hooks (park_step token reason now) file

  unfoldable pub park_manual :
      Hooks ℕ
      → AdmissionToken
      → ManualProof
      → (now : String) → RegistryFile
      → RegistryFile × Checked ℕ
  park_manual hooks token proof now file =
      after_checks
        (reject (not (proof_is_complete proof)) AdmissionStateError.needs_stopped_proof
          >> or_throw AdmissionStateError.relative_path (canonical_path P proof.worktree))
        (λ worktree. transact P ports hooks (park_manual_step token worktree now)) file

  unfoldable pub retire_manual :
      Hooks ℕ
      → (lane_id : String) (generation : ℕ) → ManualProof
      → (now : String) → RegistryFile
      → RegistryFile × Checked ℕ
  retire_manual hooks lane_id generation proof now file =
      after_checks
        (reject
            (is_blank lane_id || not (safe_positive generation) || not (proof_is_complete proof))
            AdmissionStateError.needs_stopped_proof
          >> or_throw AdmissionStateError.relative_path (canonical_path P proof.worktree))
        (λ worktree. transact P ports hooks (retire_manual_step lane_id generation worktree now))
        file

  unfoldable pub release :
      Hooks (ℕ × LaneRecord × LaneRecord)
      → AdmissionToken
      → (execution_stopped : Bool) → (now : String) → RegistryFile
      → RegistryFile × Checked (ℕ × LaneRecord × LaneRecord)
  release hooks token execution_stopped now file =
      after_checks (reject (not execution_stopped) AdmissionStateError.not_stopped)
        (λ _. transact P ports hooks (release_step token now)) file

  unfoldable pub release_parked :
      Hooks (ℕ × Option LaneRecord × LaneRecord)
      → (lane_id : String) (generation : ℕ) → (execution_stopped : Bool) → (now : String)
      → RegistryFile
      → RegistryFile × Checked (ℕ × Option LaneRecord × LaneRecord)
  release_parked hooks lane_id generation execution_stopped now file =
      after_checks
        (reject (is_blank lane_id || not (safe_positive generation) || not execution_stopped)
          AdmissionStateError.not_stopped)
        (λ _. transact P ports hooks (release_parked_step lane_id generation now)) file

  unfoldable pub with_exact_released_lane :
      Hooks LaneRecord
      → (lane_id : String) (generation : ℕ) → RegistryFile
      → RegistryFile × Checked LaneRecord
  with_exact_released_lane hooks lane_id generation file =
      after_checks
        (reject (is_blank lane_id || not (safe_positive generation))
          AdmissionStateError.stale_receipt)
        (λ _. transact P ports hooks (exact_released_step lane_id generation)) file

  unfoldable pub with_lane_lock :
      {A : Type 0}
      → Hooks A
      → (lane_id : String) → (operation : Option LaneRecord → Checked A) → RegistryFile
      → RegistryFile × Checked A
  with_lane_lock hooks lane_id operation file =
      after_checks (reject (is_blank lane_id) AdmissionStateError.needs_lane_id)
        (λ _. transact P ports hooks (lane_lock_step lane_id operation)) file

  unfoldable pub with_run_transition_fence :
      {A : Type 0}
      → Hooks A
      → (run_id : String) → (operation : Checked A) → RegistryFile
      → RegistryFile × Checked A
  with_run_transition_fence hooks run_id operation file =
      after_checks (reject (is_blank run_id) AdmissionStateError.needs_run_id)
        (λ _. transact P ports hooks (run_fence_step run_id operation)) file

  unfoldable pub reconcile_merged_run :
      Hooks MergedLane → (run_id now : String) → RegistryFile → RegistryFile × Checked MergedLane
  reconcile_merged_run hooks run_id now file =
      after_checks (reject (is_blank run_id) AdmissionStateError.needs_run_id)
        (λ _. transact P ports hooks (reconcile_merged_step run_id now)) file

-- `assertCanMutate` and `assertCanPublish`, on the registry that `readState` returns.
unfoldable pub check_mutation : RegistryState → LaneRecord → Checked Unit
check_mutation state lane =
    reject (not (mutation lane.role)) AdmissionStateError.cannot_mutate
    >> reject (not (is_some lane.evidence.workspace)) AdmissionStateError.no_workspace
    >> (if is_captain lane then assert_no_active_delegates state lane else ok tt)

unfoldable pub check_publication : (mission_id : String) → RegistryState → LaneRecord → Checked Unit
check_publication mission_id state lane =
    reject (not (is_captain lane && (lane.mission_id == mission_id)))
      AdmissionStateError.cannot_publish
    >> reject (not (is_some lane.evidence.workspace)) AdmissionStateError.no_workspace
    >> assert_no_active_delegates state lane

module _ (P : Platform) (config : AdmissionConfig) where
  unfoldable pub assert_current_owner : AdmissionToken → RegistryFile → Checked Unit
  assert_current_owner token file =
      read_state P config false file >>= λ state. require_current_token state token >>= λ _. ok tt

  unfoldable pub assert_can_mutate : AdmissionToken → RegistryFile → Checked Unit
  assert_can_mutate token file = read_state P config false file >>= λ state.
      require_current_token state token >>= λ lane. check_mutation state lane

  unfoldable pub assert_can_publish :
      AdmissionToken → (mission_id : String) → RegistryFile → Checked Unit
  assert_can_publish token mission_id file = read_state P config false file >>= λ state.
      require_current_token state token >>= λ lane. check_publication mission_id state lane

  unfoldable pub read_lane : (lane_id : String) → RegistryFile → Checked (Option LaneRecord)
  read_lane lane_id file = read_state P config false file >>= λ state.
      ok (option_map detached_lane_view (lane_by_id lane_id state.lanes))
