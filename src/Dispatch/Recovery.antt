-- ===== src/Dispatch/Recovery.antt =====
-- src/dispatch/runner.ts: the run that a runtime claim names, or that was created under the claim before
-- its comment could be updated. Letter case and the order of texts are parameters.
use tachiko_conductor.Prelude.{some_injective}
use tachiko_conductor.Prelude.{
  String, string_eq, nat_eq, option_eq, Bool, true, false, not, ◌&&◌, ◌==◌, ltb, Option, none, some,
  List, [], ◌∷◌, any, filter_by, length, Result, ok, err, ◌>>◌, reject, >>-eq-ok, reject-eq-ok,
  if◌then◌else◌, ◌≡◌, ◌≢◌, ap, subst, ◌∙◌, inl, inr, arith, Bool-cases, option_beq_iff,
}
use tachiko_conductor.Types.Names.{WorkflowState, state_eq}
use tachiko_conductor.Types.Evidence.{Target}
use tachiko_conductor.Types.Run.{Run}
use tachiko_conductor.Admission.Valid.{Mem, here, any-Mem, filter-Mem, filter-Mem_back}
use tachiko_conductor.Dispatch.Queue.{DispatchQueueEntry, DispatchRuntimeClaim}

pub data RecoveryError : Type 0 where
  not_owned many_runs unrelated_active later_unbound : RecoveryError

-- A persisted run that is not merged or failed.
unfoldable pub is_active_run : Run → Bool
is_active_run run =
    not (run.state == WorkflowState.merged) && not (run.state == WorkflowState.failed)

-- The run was created under the claim.
abbrev pub is_linked : DispatchRuntimeClaim → Run → Bool
is_linked claim run = run.dispatch_claim_id == some claim.claim_id

module _ (to_lower_case : String → String) (not_before : String → String → Bool)
    (owner repo : String) where
  target_matches : Target → DispatchQueueEntry → Bool
  target_matches (Target.issue run_owner run_repo number) entry =
      (to_lower_case run_owner == to_lower_case owner)
      && (to_lower_case run_repo == to_lower_case repo)
      && (number == entry.issue)
  target_matches (Target.repository run_owner run_repo branch publication) entry = false

  -- `isTarget`
  unfoldable pub is_target : Run → DispatchQueueEntry → Bool
  unfolding target_matches
  is_target run entry = target_matches run.target entry

  -- The run that the claim names.
  named_run :
      DispatchRuntimeClaim → DispatchQueueEntry → Option Run → Result RecoveryError (Option Run)
  named_run claim entry none = err RecoveryError.not_owned
  named_run claim entry (some run) =
      if is_target run entry && is_linked claim run
      then ok (some run)
      else err RecoveryError.not_owned

  -- The run that was created under the claim, of those for the entry.
  sole_run : List Run → Option Run
  sole_run [] = none
  sole_run (run ∷ runs) = some run

  unbound_run :
      DispatchRuntimeClaim → DispatchQueueEntry → List Run → Result RecoveryError (Option Run)
  unfolding sole_run
  unbound_run claim entry runs =
      let matching = filter_by (λ run. is_target run entry) runs in
      let linked = filter_by (is_linked claim) matching in
      reject (ltb 1 (length linked)) RecoveryError.many_runs
      >> reject (any (λ run. is_active_run run && not (is_linked claim run)) matching)
          RecoveryError.unrelated_active
      >> reject
          (any (λ run. not_before run.created_at claim.claimed_at && not (is_linked claim run))
            matching)
          RecoveryError.later_unbound
      >> ok (sole_run linked)

  claimed_by :
      DispatchRuntimeClaim
      → DispatchQueueEntry
      → (read : String → Option Run) → List Run
      → Option String
      → Result RecoveryError (Option Run)
  unfolding named_run unbound_run
  claimed_by claim entry read runs (some run_id) = named_run claim entry (read run_id)
  claimed_by claim entry read runs none = unbound_run claim entry runs

  -- `claimedRun`, on what the store reads and lists
  unfoldable pub claimed_run :
      DispatchRuntimeClaim
      → DispatchQueueEntry
      → (read : String → Option Run) → List Run
      → Result RecoveryError (Option Run)
  unfolding claimed_by
  claimed_run claim entry read runs = claimed_by claim entry read runs claim.run_id

  -- What the recovery of a claim may return.
  pub record IsOwn (claim : DispatchRuntimeClaim) (entry : DispatchQueueEntry) (run : Run)
      : Type 0 where
    pub target : is_target run entry ≡ true
    pub linked : run.dispatch_claim_id ≡ some claim.claim_id

  named_run-IsOwn :
      (claim : DispatchRuntimeClaim) (entry : DispatchQueueEntry) (found : Option Run) {run : Run}
      → named_run claim entry found ≡ ok (some run)
      → IsOwn claim entry run
  unfolding named_run
  named_run-IsOwn claim entry none h = cc
  named_run-IsOwn claim entry (some found) {run} h =
      elim (Bool-cases (is_target found entry && is_linked claim found)) [
        | inl both ↦
            subst (IsOwn claim entry)
              (same_run (
                subst
                  (λ b.
                    (if b then ok (some found) else err RecoveryError.not_owned) ≡ ok (some run))
                  both h))
              (record {
                target = ground arith;
                linked =
                    (option_beq_iff found.dispatch_claim_id (some claim.claim_id)).0 (ground arith);
              })
        | inr refused ↦ absurd (
            no_run (
              subst
                (λ b. (if b then ok (some found) else err RecoveryError.not_owned) ≡ ok (some run))
                refused h))
      ]
    where
      same_run :
          {x y : Run}
          → ◌≡◌ {A = Result RecoveryError (Option Run)} (ok (some x)) (ok (some y))
          → x ≡ y
      same_run e = cc

      no_run :
          {x : Run}
          → ◌≢◌ {A = Result RecoveryError (Option Run)} (err RecoveryError.not_owned) (ok (some x))
      no_run e = cc

  linked-IsOwn :
      (claim : DispatchRuntimeClaim) (entry : DispatchQueueEntry) (runs : List Run) {run : Run}
      → Mem run (filter_by (is_linked claim) (filter_by (λ r. is_target r entry) runs))
      → IsOwn claim entry run
  linked-IsOwn claim entry runs {run} at =
      let (matches, linked) = filter-Mem_back (is_linked claim) _ at in
      let (_, target) = filter-Mem_back (λ r. is_target r entry) runs matches in
      record {
        target = target;
        linked = (option_beq_iff run.dispatch_claim_id (some claim.claim_id)).0 linked;
      }

  sole_run-Mem : (runs : List Run) {run : Run} → sole_run runs ≡ some run → Mem run runs
  unfolding sole_run
  sole_run-Mem [] h = cc
  sole_run-Mem (first ∷ runs) h = subst (λ r. Mem r (first ∷ runs)) (some_injective h) here

  -- What a run is recovered from a claim that names none.
  unbound_run-parts :
      (claim : DispatchRuntimeClaim) (entry : DispatchQueueEntry) (runs : List Run)
      {found : Option Run}
      → unbound_run claim entry runs ≡ ok found
      → (sole_run (filter_by (is_linked claim) (filter_by (λ r. is_target r entry) runs)) ≡ found)
        × (any
              (λ r. is_active_run r && not (is_linked claim r))
              (filter_by (λ r. is_target r entry) runs)
            ≡ false)
  unfolding unbound_run
  unbound_run-parts claim entry runs {found} h =
      let matching = filter_by (λ r. is_target r entry) runs in
      let (checks, last) = >>-eq-ok _ (ok (sole_run (filter_by (is_linked claim) matching))) h in
      let (earlier, _) = >>-eq-ok _ _ checks in
      let (_, active) = >>-eq-ok _ _ earlier in (found_is last, reject-eq-ok _ _ active)
    where
      found_is :
          {x y : Option Run} → ◌≡◌ {A = Result RecoveryError (Option Run)} (ok x) (ok y) → x ≡ y
      found_is e = cc

  -- A run that is recovered for a claim is for the entry's issue and was created under the claim. Where
  -- the claim names no run and the recovery does not throw, every active run for the issue was created
  -- under the claim: the work of another owner is never adopted, nor overlooked.
  pub claimed_run-IsOwn :
      (claim : DispatchRuntimeClaim) (entry : DispatchQueueEntry) (read : String → Option Run)
      (runs : List Run) (found : Option Run)
      → claimed_run claim entry read runs ≡ ok found
      → ((run : Run) → found ≡ some run → IsOwn claim entry run)
        × (claim.run_id ≡ none
            → (run : Run) → Mem run runs
            → is_target run entry ≡ true
            → is_active_run run ≡ true
            → is_linked claim run ≡ true)
  unfolding claimed_run claimed_by
  claimed_run-IsOwn claim entry read runs found h = go claim.run_id h
    where
      owned : (a l : Bool) → a ≡ true → (a && not l) ≡ false → l ≡ true
      owned a l p q = ground arith

      go :
          (run_id : Option String)
          → claimed_by claim entry read runs run_id ≡ ok found
          → ((run : Run) → found ≡ some run → IsOwn claim entry run)
            × (run_id ≡ none
                → (run : Run) → Mem run runs
                → is_target run entry ≡ true
                → is_active_run run ≡ true
                → is_linked claim run ≡ true)
      go (some run_id) e = (
        λ run same. named_run-IsOwn claim entry (read run_id) (e ∙ ap ok same),
        λ empty. absurd (some_none empty),
      )
        where
          some_none : {x : String} → ◌≢◌ {A = Option String} (some x) none
          some_none q = cc
      go none e =
          let (sole, others) = unbound_run-parts claim entry runs e in
          (
            λ run same. linked-IsOwn claim entry runs (sole_run-Mem _ (sole ∙ same)),
            λ _ run at target active. owned _ _ active (
                any-Mem (λ r. is_active_run r && not (is_linked claim r))
                  (filter_by (λ r. is_target r entry) runs)
                  (filter-Mem (λ r. is_target r entry) runs at target) others),
          )
