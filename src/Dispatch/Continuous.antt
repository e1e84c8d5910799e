-- ===== src/Dispatch/Continuous.antt =====
-- src/dispatch/continuous.ts: the serial driver, with a bound on its cycles. What a dispatch and a sleep
-- do to the world, and how they fail, are parameters; the unbounded driver, which does not return, is left out.
use tachiko_conductor.Prelude.{
  ℕ, zero, suc, ◌+◌, ◌-◌, ◌≤◌, ◌<◌, Bool, true, false, not, ◌&&◌, ◌||◌, ◌==◌, Option, none, some,
  ◌≡◌, ◌≢◌, refl, Result, ok, err, arith, if◌then◌else◌, ◌⊎◌, inl, inr, nat_eq, option_eq, bool_eq,
  String, List,
}
use tachiko_conductor.Types.Names.{WorkflowState, state_eq}
use tachiko_conductor.Admission.Platform.{safe_positive}
use tachiko_conductor.Dispatch.Queue.{DispatchQueueEntry, DispatchRuntimeClaim}

-- What one dispatch reports; of an execution, its run's state and whether it waits for a poll.
pub data DispatchOnceResult : Type 0 where
  maintenance_hold : (reason : String) → DispatchOnceResult
  no_eligible_work : (reasons : List String) → DispatchOnceResult
  existing_claim : DispatchRuntimeClaim → DispatchOnceResult
  owner_reconciliation_hold :
      DispatchQueueEntry → DispatchRuntimeClaim → (reason : String) → DispatchOnceResult
  admission_wait :
      DispatchQueueEntry
      → (run_id : String) → DispatchRuntimeClaim
      → (reason : String) → DispatchOnceResult
  dispatched :
      DispatchQueueEntry
      → DispatchRuntimeClaim
      → (state : WorkflowState) → (wait_for_poll : Option Bool) → DispatchOnceResult

-- `isTerminalDispatch`
unfoldable pub is_terminal_dispatch : DispatchOnceResult → Bool
is_terminal_dispatch (dispatched entry claim state wait_for_poll) =
    not (wait_for_poll == some true)
    && ((state == WorkflowState.merged)
        || (state == WorkflowState.merge_ready)
        || (state == WorkflowState.needs_human)
        || (state == WorkflowState.failed))
is_terminal_dispatch _ = false

pub record DispatchContinuousResult : Type 0 where
  pub cycles : ℕ
  pub idle_waits : ℕ
  pub last : Option DispatchOnceResult

pub data OptionsError : Type 0 where
  bad_idle_poll bad_max_cycles : OptionsError

-- `await`: what follows is done with the answer, and is not done where there is none.
abbrev pub awaiting :
    {E W A B : Type 0} → W × Result E A → (A → W → W × Result E B) → W × Result E B
awaiting (world, err e) next = (world, err e)
awaiting (world, ok a) next = next a world

module _ {E W : Type 0} (dispatch_once : W → W × Result E DispatchOnceResult)
    (sleep : W → W × Result E (Unit {0})) where
  -- The rest of the loop: so many cycles are left, and so many cycles and waits are done. There is no
  -- wait after the last cycle, or after a settled workflow. A dispatch or a wait that fails ends it.
  unfoldable pub loop :
      (left cycles idle_waits : ℕ)
      → Option DispatchOnceResult
      → W
      → W × Result E DispatchContinuousResult
  unfolding is_terminal_dispatch
  loop zero cycles idle_waits last world =
      (world, ok (record { cycles = cycles; idle_waits = idle_waits; last = last }))
  loop (suc left) cycles idle_waits last world = awaiting (dispatch_once world) (λ result after.
      elim (is_terminal_dispatch result || (left == 0)) [
        | true ↦ loop left (cycles + 1) idle_waits (some result) after
        | false ↦
            awaiting (sleep after)
              (λ _ awake. loop left (cycles + 1) (idle_waits + 1) (some result) awake)
      ])

  -- `dispatchContinuously`: its answer is that of the loop, unless an option is refused first.
  unfoldable pub dispatch_continuously :
      (idle_poll_ms max_cycles : ℕ)
      → W
      → Result OptionsError (W × Result E DispatchContinuousResult)
  unfolding loop
  dispatch_continuously idle_poll_ms max_cycles world =
      if not (safe_positive idle_poll_ms)
      then err OptionsError.bad_idle_poll
      else if not (safe_positive max_cycles)
      then err OptionsError.bad_max_cycles
      else ok (loop max_cycles 0 0 none world)

  -- A dispatch or a wait fails with the error in some world.
  abbrev pub Rejects : E → Type 0
  Rejects e =
      ((world : W) × ((dispatch_once world).1 ≡ err e)) ⊎ ((world : W) × ((sleep world).1 ≡ err e))

  -- What the rest of the loop answers: it made the cycles that were left, and waited less often, or it
  -- was ended by a failure.
  Ends :
      (left cycles idle_waits : ℕ)
      → Option DispatchOnceResult
      → Result E DispatchContinuousResult
      → Type 0
  Ends left cycles idle_waits last (ok result) =
      (result.cycles ≡ cycles + left)
      × (result.idle_waits ≤ idle_waits + (left - 1))
      × ((last ≢ none) ⊎ (0 < left) → result.last ≢ none)
  Ends left cycles idle_waits last (err e) = Rejects e

  awaiting-holds :
      {A B : Type 0} (P : Result E B → Type 0) (answer : W × Result E A)
      (next : A → W → W × Result E B)
      → ((e : E) → answer.1 ≡ err e → P (err e))
      → ((a : A) (world : W) → P ((next a world).1))
      → P ((awaiting answer next).1)
  awaiting-holds P (world, err e) next failed goes_on = failed e refl
  awaiting-holds P (world, ok a) next failed goes_on = goes_on a world

  some_there : {r : DispatchOnceResult} → ◌≢◌ {A = Option DispatchOnceResult} (some r) none
  some_there h = cc

  -- One more cycle, without a wait or with one that is not after the last.
  cycle-Ends :
      (left cycles idle_waits waits : ℕ) (last : Option DispatchOnceResult)
      (result : DispatchOnceResult) (answer : Result E DispatchContinuousResult)
      → waits + (left - 1) ≤ idle_waits + left
      → Ends left (cycles + 1) waits (some result) answer
      → Ends (suc left) cycles idle_waits last answer
  unfolding Ends
  cycle-Ends left cycles idle_waits waits last result (ok r) h (made, waited, reported) =
      (omega (arith, made), omega (arith, waited, h), λ _. reported (inl some_there))
  cycle-Ends left cycles idle_waits waits last result (err e) h rejects = rejects

  more_left :
      (terminal : Bool) (left idle_waits : ℕ)
      → (terminal || (left == 0)) ≡ false
      → idle_waits + 1 + (left - 1) ≤ idle_waits + left
  more_left terminal left idle_waits h = ground arith

  -- The rest of a cycle, after a dispatch that did not fail.
  settled-Ends :
      (left cycles idle_waits : ℕ) (last : Option DispatchOnceResult) (result : DispatchOnceResult)
      (after : W) (goes_on : Bool)
      → ((waits : ℕ) (world : W)
          → Ends left
              (cycles + 1)
              waits
              (some result)
              ((loop left (cycles + 1) waits (some result) world).1))
      → (is_terminal_dispatch result || (left == 0)) ≡ goes_on
      → Ends (suc left) cycles idle_waits last (
          (elim goes_on as (λ _. W × Result E DispatchContinuousResult) [
            | true ↦ loop left (cycles + 1) idle_waits (some result) after
            | false ↦
                awaiting
                  (sleep after)
                  (λ _ awake. loop left (cycles + 1) (idle_waits + 1) (some result) awake)
          ]).1)
  unfolding Ends
  settled-Ends left cycles idle_waits last result after true rest e =
      cycle-Ends left cycles idle_waits idle_waits last result _ (omega arith)
        (rest idle_waits after)
  settled-Ends left cycles idle_waits last result after false rest e =
      awaiting-holds (Ends (suc left) cycles idle_waits last) (sleep after) _
        (λ e failed. inr (after, failed))
        (λ _ awake.
          cycle-Ends left cycles idle_waits (idle_waits + 1) last result _
            (more_left (is_terminal_dispatch result) left idle_waits e)
            (rest (idle_waits + 1) awake))

  loop-Ends :
      (left cycles idle_waits : ℕ) (last : Option DispatchOnceResult) (world : W)
      → Ends left cycles idle_waits last ((loop left cycles idle_waits last world).1)
  unfolding loop Ends
  loop-Ends zero cycles idle_waits last world = (omega arith, omega arith, there)
    where
      there : (last ≢ none) ⊎ (0 < 0) → last ≢ none
      there (inl h) = h
      there (inr h) = absurd (omega (arith, h))
  loop-Ends (suc left) cycles idle_waits last world =
      awaiting-holds (Ends (suc left) cycles idle_waits last) (dispatch_once world) _
        (λ e failed. inl (world, failed))
        (λ result after.
          settled-Ends left cycles idle_waits last result after
            (is_terminal_dispatch result || (left == 0))
            (λ waits next. loop-Ends left (cycles + 1) waits (some result) next) refl)

  -- What the bounded driver answers.
  abbrev pub Returns : (max_cycles : ℕ) → Result E DispatchContinuousResult → Type 0
  Returns max_cycles (ok result) =
      (result.cycles ≡ max_cycles) × (result.idle_waits < max_cycles) × (result.last ≢ none)
  Returns max_cycles (err e) = Rejects e

  Ends-Returns :
      (left : ℕ) (answer : Result E DispatchContinuousResult)
      → Ends (suc left) 0 0 none answer
      → Returns (suc left) answer
  unfolding Ends
  Ends-Returns left (ok result) (made, waited, reported) =
      (omega (arith, made), omega (arith, waited), reported (inr (omega arith)))
  Ends-Returns left (err e) rejects = rejects

  -- The driver with a bound on its cycles ends, for every positive safe bound and poll interval. Where it
  -- returns, it has made exactly as many dispatches as the bound says, has the report of the last, and
  -- waited less often; where it rejects, a dispatch or a wait did, with the same error.
  pub dispatch_continuously-Returns :
      (idle_poll_ms max_cycles : ℕ) (world : W)
      → safe_positive idle_poll_ms ≡ true
      → safe_positive max_cycles ≡ true
      → (last_world : W) × (answer : Result E DispatchContinuousResult) × (dispatch_continuously
            idle_poll_ms max_cycles world
          ≡ ok (last_world, answer))
        × Returns max_cycles answer
  unfolding dispatch_continuously
  dispatch_continuously-Returns idle_poll_ms zero world poll bound = absurd (ground arith)
  dispatch_continuously-Returns idle_poll_ms (suc left) world poll bound =
      let made = loop (suc left) 0 0 none world in
      (
        made.0,
        made.1,
        rw (poll, bound) refl,
        Ends-Returns left made.1 (loop-Ends (suc left) 0 0 none world),
      )
