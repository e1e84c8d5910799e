-- ===== src/Tests/Dispatches.antt =====
-- A driver that finds nothing to do three times, and a claim that is taken.
use tachiko_conductor.Prelude.{String, Option}
use tachiko_conductor.Prelude.{
  string_eq, ℕ, ◌+◌, nat_eq, option_eq, true, none, some, List, [], ◌∷◌, ◌≡◌, refl, ok, is_blank,
  trim, Result, err, ◌==◌, if◌then◌else◌,
}
use tachiko_conductor.Types.Names.{TaskShape}
use tachiko_conductor.Types.Repair.{RepairTaskShapeAuthority}
use tachiko_conductor.Admission.Valid.{Mem}
use tachiko_conductor.Dispatch.Queue.{
  DispatchRoute, ClaimState, DispatchQueueEntry, DispatchRuntimeClaim, CommentBody,
  DispatchRuntimeComment, SelectedClaim, is_marked, claim_dispatch_entry, prepare_claim,
  write_claim, require_authority, render_dispatch_runtime, check_entry, check_free, confirm,
  select_dispatch_runtime, same_dispatch_runtime_claim, same_authority, new_claim,
}
use tachiko_conductor.Dispatch.Continuous.{
  DispatchOnceResult, DispatchContinuousResult, dispatch_continuously,
  dispatch_continuously-Returns, loop, is_terminal_dispatch, Returns,
}
use tachiko_conductor.Types.Evidence.{Target}
use tachiko_conductor.Types.Run.{Run}
use tachiko_conductor.Machine.Create.{create_run}
use tachiko_conductor.Dispatch.Recovery.{
  IsOwn, claimed_run, is_target, is_active_run, is_linked, claimed_run-IsOwn,
}
use tachiko_conductor.Dispatch.Claims.{claim_dispatch_entry-sole, claim_dispatch_entry-excludes}

-- A world that counts what is done in it, and fails at its third dispatch.
abbrev idle_once : ℕ → ℕ × Result String DispatchOnceResult
idle_once done =
    (done + 1, if done == 202 then err "refused" else ok (DispatchOnceResult.no_eligible_work []))

abbrev rest : ℕ → ℕ × Result String (Unit {0})
rest done = (done + 100, ok tt)

-- Two cycles return, and a third one fails.
driven :
    (dispatch_continuously idle_once rest 30000 2 0
      ≡ ok (
        102,
        ok (record {
          cycles = 2;
          idle_waits = 1;
          last = some (DispatchOnceResult.no_eligible_work []);
        }),
      ))
    × (dispatch_continuously idle_once rest 30000 3 0 ≡ ok (203, err "refused"))
unfolding dispatch_continuously loop is_terminal_dispatch
driven = (refl, refl)

dispatch_continuously-Returns_example :
    (last_world : ℕ) × (answer : Result String DispatchContinuousResult) × (dispatch_continuously
        idle_once rest 30000 3 0
      ≡ ok (last_world, answer))
    × Returns idle_once rest 3 answer
dispatch_continuously-Returns_example =
    dispatch_continuously-Returns idle_once rest 30000 3 0 refl refl

abbrev authority : RepairTaskShapeAuthority
authority = record { revision = "1"; shape = TaskShape.bounded }

abbrev entry : DispatchQueueEntry
entry = record {
  issue = 7;
  route = DispatchRoute.codex;
  profile = "standard";
  repair_task_shape_authority = some authority;
}

abbrev claim : DispatchRuntimeClaim
claim = record {
  issue = 7;
  claim_id = "c";
  run_id = none;
  profile = "standard";
  repair_task_shape_authority = some authority;
  state = ClaimState.claimed;
  claimed_at = "now";
  heartbeat_at = "now";
  lease_until = "later";
}

abbrev comments : List DispatchRuntimeComment
comments =
    record { id = "1"; body = CommentBody.prose }
    ∷ record { id = "2"; body = CommentBody.runtime claim }
    ∷ []

abbrev selected : SelectedClaim
selected = record { id = "2"; claim = claim }

taken : (claim_dispatch_entry entry 60000 "now" "c" "later" [] "2" comments).answer ≡ ok selected
unfolding claim_dispatch_entry prepare_claim write_claim check_entry check_free confirm
    select_dispatch_runtime same_dispatch_runtime_claim same_authority new_claim require_authority
    is_blank trim
taken = refl

claim_dispatch_entry-sole_example :
    ((claim_dispatch_entry entry 60000 "now" "c" "later" [] "2" comments).written
      ≡ some (render_dispatch_runtime claim))
    × ((a : RepairTaskShapeAuthority) × (entry.repair_task_shape_authority ≡ some a)
        × (claim ≡ new_claim entry a "now" "c" "later"))
    × (◌≡◌ {A = String} "2" "2")
    × ((comment : DispatchRuntimeComment)
        → Mem comment comments
        → is_marked comment ≡ true
        → comment.id ≡ "2")
claim_dispatch_entry-sole_example =
    claim_dispatch_entry-sole entry 60000 "now" "c" "later" [] "2" comments selected taken

claim_dispatch_entry-excludes_example : ◌≡◌ {A = String} "2" "2"
claim_dispatch_entry-excludes_example =
    claim_dispatch_entry-excludes entry entry 60000 60000 "now" "c" "later" "now" "c" "later" [] []
      comments comments "2" "2" selected selected taken taken (λ comment at _. at)

-- A run that was created under the claim.
abbrev owned_run : Run
owned_run = create_run (Target.issue "o" "r" 7) "now" "run-1" none (some "c") none

recovered :
    claimed_run (λ text. text) (λ _ _. true) "o" "r" claim entry (λ _. none) (owned_run ∷ [])
    ≡ ok (some owned_run)
unfolding claimed_run is_target is_active_run create_run
recovered = refl

claimed_run-IsOwn_example :
    ((run : Run)
      → ◌≡◌ {A = Option Run} (some owned_run) (some run)
      → IsOwn (λ text. text) (λ _ _. true) "o" "r" claim entry run)
    × (claim.run_id ≡ none
        → (run : Run) → Mem run (owned_run ∷ [])
        → is_target (λ text. text) (λ _ _. true) "o" "r" run entry ≡ true
        → is_active_run run ≡ true
        → is_linked claim run ≡ true)
claimed_run-IsOwn_example =
    claimed_run-IsOwn (λ text. text) (λ _ _. true) "o" "r" claim entry (λ _. none) (owned_run ∷ [])
      (some owned_run) recovered
