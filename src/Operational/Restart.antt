-- ===== src/Operational/Restart.antt =====
-- What a verdict that a restart is safe proves of the admission registry and of the runs.
use tachiko_conductor.Prelude.{
  String, string_eq, nat_eq, option_eq, Bool, true, false, not, ◌||◌, ◌==◌, ltb, Option, some, List,
  [], ◌∷◌, includes, length, ◌≡◌, ◌≢◌, refl, sym, ap, ◌∙◌, ◌⊎◌, inl, inr, arith, Bool-cases, Eq,
}
use tachiko_conductor.Types.Run.{Run}
use tachiko_conductor.Admission.Types.{LaneRecord, RegistryState, lane_status_eq}
use tachiko_conductor.Admission.Evidence.{mutation}
use tachiko_conductor.Admission.State.{is_active, set_of, writer_missions}
use tachiko_conductor.Admission.Valid.{Mem, all-Mem, any-Mem, filter-Mem, map-Mem}
use tachiko_conductor.Operational.Projection.{
  Comparison, Ownership, ProjectionInput, OperationalRuntimeProjection, project, ManualLane,
  summary_of, is_live, has_durable_lane, is_uncertain, summarize, demote,
  compose_operational_runtime_projection, ownership_eq, checkpoint_eq,
}
use tachiko_conductor.Operational.Verdict.{RestartVerdict, restart_verdict, verdict_of}

-- A set of the values of a list that is not empty is not empty.
set_of-Mem :
    {A : Type 0} ⦃eq : Eq A⦄ (xs : List A) {a : A} → Mem a xs → ltb 0 (length (set_of xs)) ≡ true
unfolding set_of
set_of-Mem [] at = elim at [ ]
set_of-Mem ⦃eq⦄ (x ∷ xs) at = elim (Bool-cases (includes ⦃e = eq⦄ x (set_of xs))) [
  | inl seen ↦ rw seen (includes-some x (set_of xs) seen)
  | inr new ↦ rw new (ground arith)
]
  where
    includes-some :
        {A : Type 0} ⦃eq : Eq A⦄ (a : A) (xs : List A)
        → includes a xs ≡ true
        → ltb 0 (length xs) ≡ true
    includes-some a [] h = cc
    includes-some a (x ∷ xs) h = ground arith

-- A registry whose projection counts no writer has no active lane that may change production state.
no_writer :
    (state : RegistryState)
    → ltb 0 (length (writer_missions state)) ≡ false
    → (lane : LaneRecord) → Mem lane state.lanes
    → is_active lane ≡ true
    → mutation lane.role ≡ false
unfolding writer_missions
no_writer state idle lane at active = elim (Bool-cases (mutation lane.role)) [
  | inr reads ↦ reads
  | inl writes ↦ absurd (
      clash
        (set_of-Mem _ (
          map-Mem (λ l. l.mission_id) _
            (filter-Mem (λ l. mutation l.role) _ (filter-Mem is_active state.lanes at active)
              writes)))
        idle)
]
  where
    clash : {b : Bool} → b ≡ true → b ≢ false
    clash yes_it no_it = cc

pub record IsQuiet (input : ProjectionInput) : Type 0 where
  pub writers : ltb 0 input.admission.counts.writers ≡ false
  pub complete : input.admission.lanes_truncated ≡ false
  pub certain : is_uncertain input ≡ false

unowned-quiet :
    (writes truncated uncertain : Bool) (manual_lane : Option ManualLane)
    → ((summary_of writes truncated uncertain manual_lane).ownership == Ownership.unowned) ≡ true
    → (writes ≡ false) × (truncated ≡ false) × (uncertain ≡ false)
unfolding summary_of demote
unowned-quiet true truncated uncertain lane h = absurd (ground arith)
unowned-quiet false true uncertain lane h = absurd (ground arith)
unowned-quiet false false true lane h = absurd (ground arith)
unowned-quiet false false false lane h = (refl, refl, refl)

-- Only a quiet input is summarized as unowned.
summarize-IsQuiet :
    (input : ProjectionInput)
    → ((summarize input).ownership == Ownership.unowned) ≡ true
    → IsQuiet input
unfolding summarize
summarize-IsQuiet input h =
    let (writers, complete, certain) =
      unowned-quiet (ltb 0 input.admission.counts.writers) input.admission.lanes_truncated
        (is_uncertain input) input.manual_lane h in
    record { writers = writers; complete = complete; certain = certain }

-- A verdict that no writer is active, or that a restart is safe, needs an unowned projection.
safe-unowned :
    (canonical_timestamp : String → Bool) (p : OperationalRuntimeProjection)
    → (restart_verdict canonical_timestamp (some p) ≡ RestartVerdict.safe_to_restart)
      ⊎ (restart_verdict canonical_timestamp (some p) ≡ RestartVerdict.window_not_guaranteed)
    → (p.ownership == Ownership.unowned) ≡ true
unfolding restart_verdict verdict_of
safe-unowned canonical_timestamp p (inl h) = ground arith
safe-unowned canonical_timestamp p (inr h) = ground arith

-- What stands still when a restart is called safe.
pub record IsStill (state : RegistryState) (input : ProjectionInput) : Type 0 where
  -- No active lane may change production state.
  pub idle :
      (lane : LaneRecord)
      → Mem lane state.lanes
      → is_active lane ≡ true
      → mutation lane.role ≡ false
  -- Every run is settled or waits, and has a lane whose re-entry evidence is durable.
  pub settled : (run : Run) → Mem run input.runs → is_live run ≡ false
  pub reentrant : (run : Run) → Mem run input.runs → has_durable_lane input run ≡ true

-- When the projection that is composed of a registry and the runs yields the verdict SAFE TO RESTART,
-- or SAFE NOW without a guaranteed window, no active lane of the registry may change production state,
-- no run is live, and every run has a parked or released lane with durable re-entry evidence.
pub restart_verdict-IsStill :
    (canonical_timestamp : String → Bool) (locale_compare : String → String → Comparison)
    (state : RegistryState) (input : ProjectionInput)
    → input.admission ≡ project locale_compare state
    → (restart_verdict canonical_timestamp (some (compose_operational_runtime_projection input))
        ≡ RestartVerdict.safe_to_restart)
      ⊎ (restart_verdict canonical_timestamp (some (compose_operational_runtime_projection input))
          ≡ RestartVerdict.window_not_guaranteed)
    → IsStill state input
unfolding compose_operational_runtime_projection project is_uncertain
restart_verdict-IsStill canonical_timestamp locale_compare state input from verdict =
    let quiet : IsQuiet input =
      summarize-IsQuiet input
        (safe-unowned canonical_timestamp (compose_operational_runtime_projection input) verdict) in
    let (live, rest) = five _ _ _ _ _ quiet.certain in
    record {
      idle = no_writer state (ap (λ a. ltb 0 a.counts.writers) (sym from) ∙ quiet.writers);
      settled = λ run at. any-Mem is_live input.runs at live;
      reentrant = λ run at. all-Mem (has_durable_lane input) input.runs rest at;
    }
  where
    five :
        (a b c d e : Bool) → (a || b || not c || not d || not e) ≡ false → (a ≡ false) × (d ≡ true)
    five a b c d e h = (ground arith, ground arith)
