-- ===== src/Machine/Lifecycle.antt =====
-- What holds of every run that transitions make of a new one: its history is one unbroken walk, it can
-- always resume, its evidence is bound to its HEAD, and it is never ready to merge.
use tachiko_conductor.Prelude.{
  String, true, false, Option, none, some, List, [], ◌∷◌, ◌++◌, ◌≡◌, refl, sym, subst, ◌∙◌, ◌⊎◌,
  inl, inr, Bool-cases, ok, arith, if◌then◌else◌,
}
use tachiko_conductor.Types.Names.{WorkflowState, TransitionType}
use tachiko_conductor.Types.Evidence.{Target, ResolvedExecutionConfiguration}
use tachiko_conductor.Types.Repair.{RepairTaskShapeAuthority, RepairHandoffRecord}
use tachiko_conductor.Types.Run.{TransitionRecord, TransitionInput, Run}
use tachiko_conductor.Native.{Native}
use tachiko_conductor.Machine.Freshness.{ActiveValidationConfiguration}
use tachiko_conductor.Machine.Apply.{apply_transition, is_interrupt, history_record}
use tachiko_conductor.Machine.Accepted.{apply_transition-Accepted, Accepted-Fields}
use tachiko_conductor.Machine.Graph.{
  IsActive, IsActive-is_interrupt, IsParked, Documented, Undocumented, Resumes-IsParked, Moves,
  apply-Moves,
}
use tachiko_conductor.Machine.Reach.{
  Reaches, stays, steps, WithoutAuthority, Reaches-WithoutAuthority,
}
use tachiko_conductor.Machine.Binding.{IsBound, apply-IsBound}
use tachiko_conductor.Machine.Create.{create_run}

-- The records lead from the first state to the last, each from where the one before it ended.
abbrev pub Walk : WorkflowState → List TransitionRecord → WorkflowState → Type 0
Walk s [] u = s ≡ u
Walk s (h ∷ hs) u = (s ≡ h.from) × Walk h.to hs u

Walk-snoc :
    (s : WorkflowState) (hs : List TransitionRecord) (h : TransitionRecord) {u : WorkflowState}
    → Walk s hs u
    → h.from ≡ u
    → Walk s (hs ++ h ∷ []) h.to
Walk-snoc s [] h w e = (w ∙ sym e, refl)
Walk-snoc s (g ∷ hs) h w e = (w.0, Walk-snoc g.to hs h w.1 e)

-- A parked run remembers an active state, and no other run remembers any.
abbrev pub Remembers : WorkflowState → Option WorkflowState → Type 0
Remembers state from =
    (is_interrupt state ≡ true × ((s : WorkflowState) × IsActive s × (from ≡ some s)))
    ⊎ (is_interrupt state ≡ false × (from ≡ none))

pub record IsSound (run : Run) : Type 0 where
  pub walk : Walk WorkflowState.ready run.history run.state
  pub remembers : Remembers run.state run.interrupted_from
  pub bound : IsBound run

record-to :
    (run : Run) (input : TransitionInput) (to : WorkflowState) (now : String)
    (handoff : Option RepairHandoffRecord)
    → ((history_record run input to now handoff).from ≡ run.state)
      × ((history_record run input to now handoff).to ≡ to)
unfolding history_record
record-to run input to now handoff = (refl, refl)

IsParked-is_interrupt : {s : WorkflowState} → IsParked s → is_interrupt s ≡ true
IsParked-is_interrupt IsParked.waiting_dependency = refl
IsParked-is_interrupt IsParked.needs_human = refl

-- The step starts in an active state, or does not end parked.
abbrev Ends : WorkflowState → WorkflowState → Type 0
Ends from to = IsActive from ⊎ (is_interrupt to ≡ false)

Documented-Ends :
    {s : WorkflowState} {t : TransitionType} {u : WorkflowState} → Documented s t u → Ends s u
Documented-Ends Documented.begin = inr refl
Documented-Ends (Documented.wait a) = inl a
Documented-Ends (Documented.escalate a) = inl a
Documented-Ends (Documented.fail a) = inl a
Documented-Ends (Documented.fail_parked p) = inr refl
Documented-Ends _ = inr refl

Undocumented-Ends :
    {s : WorkflowState} {t : TransitionType} {u : WorkflowState} → Undocumented s t u → Ends s u
Undocumented-Ends Undocumented.prepare = inr refl
Undocumented-Ends _ = inr refl

resumed-Ends :
    {from : WorkflowState} {old : Option WorkflowState} (u : WorkflowState)
    → IsParked from
    → Remembers from old
    → old ≡ some u
    → Ends from u
resumed-Ends u p (inl (parked, (s, active, e))) h =
    let same : s ≡ u = cc in
    inr (subst (λ (x : WorkflowState). is_interrupt x ≡ false) same (IsActive-is_interrupt active))
resumed-Ends u p (inr (awake, e)) h = cc

Moves-Ends :
    {run : Run} {input : TransitionInput} {u : WorkflowState}
    → Remembers run.state run.interrupted_from
    → Moves run input u
    → Ends run.state u
Moves-Ends r (Moves.along e) = Documented-Ends e
Moves-Ends r (Moves.beyond e) = Undocumented-Ends e
Moves-Ends {u} r (Moves.resumed p e) = resumed-Ends u (Resumes-IsParked p) r e
Moves-Ends r (Moves.resynchronized p h e) =
    inr (subst (λ (x : WorkflowState). is_interrupt x ≡ false) (sym e) refl)

awake-Remembers :
    (from to : WorkflowState) (old : Option WorkflowState)
    → Ends from to
    → is_interrupt from ≡ false
    → old ≡ none
    → Remembers to (if is_interrupt to then some from else old)
awake-Remembers from to old (inl active) f o = elim (Bool-cases (is_interrupt to)) [
  | inl parked ↦ inl (parked, (from, active, rw parked))
  | inr awake ↦ inr (awake, rw awake o)
]
awake-Remembers from to old (inr awake) f o = inr (awake, rw awake o)

step-Remembers :
    (from to : WorkflowState) (old : Option WorkflowState)
    → Ends from to
    → Remembers from old
    → Remembers to (if is_interrupt from then none else if is_interrupt to then some from else old)
step-Remembers from to old (inl active) (inl (parked, (s, a, e))) =
    absurd (ground (arith, IsActive-is_interrupt active))
step-Remembers from to old (inr awake) (inl (parked, (s, a, e))) = inr (awake, rw parked)
step-Remembers from to old ends (inr (awake, e)) =
    rw awake (awake-Remembers from to old ends awake e)

-- Soundness is kept by every accepted transition.
apply-IsSound :
    (native : Native) (run : Run) (input : TransitionInput) (now : String)
    (active : Option ActiveValidationConfiguration) {next : Run}
    → IsSound run
    → apply_transition native run input now active ≡ ok next
    → IsSound next
apply-IsSound native run input now active {next} i h =
    let a = apply_transition-Accepted native run input now active h in
    let f = Accepted-Fields native run input now active a in
    let moves = apply-Moves native run input now active h in
    let (from, to) = record-to run input a.to now a.handoff in
    let ends = subst (Ends run.state) f.state (Moves-Ends i.remembers moves) in
    record {
      walk =
          simp (f.history, f.state)
            (subst
              (Walk WorkflowState.ready
                (run.history ++ history_record run input a.to now a.handoff ∷ []))
              to (Walk-snoc WorkflowState.ready run.history _ i.walk from));
      remembers =
          simp (f.interrupted_from, f.state)
            (step-Remembers run.state a.to run.interrupted_from ends i.remembers);
      bound = apply-IsBound native run input now active i.bound h;
    }

-- A run that transitions made of a new one is sound, and neither ready to merge nor merged.
pub record Lives (run : Run) : Type 0 where
  pub sound : IsSound run
  pub without_authority : WithoutAuthority run

Reaches-IsSound :
    {native : Native} {run last : Run} → IsSound run → Reaches native run last → IsSound last
Reaches-IsSound i stays = i
Reaches-IsSound {native} i (steps input now active r h) =
    apply-IsSound native _ input now active (Reaches-IsSound i r) h

module _ (target : Target) (now id : String) (execution : Option ResolvedExecutionConfiguration)
    (claim : Option String) (authority : Option RepairTaskShapeAuthority) where
  create_run-IsSound : IsSound (create_run target now id execution claim authority)
  unfolding create_run
  create_run-IsSound = record {
    walk = refl;
    remembers = inr (refl, refl);
    bound = record { review = tt; validation = tt; pull_request = tt };
  }

  create_run-WithoutAuthority :
      WithoutAuthority (create_run target now id execution claim authority)
  unfolding create_run
  create_run-WithoutAuthority = record { here = λ a. ground arith; resumes = λ s e a. cc }

  -- Whatever transitions a new run goes through, its history is one unbroken walk from READY to its
  -- state; it remembers an active state to resume exactly while it is parked; the review, the
  -- validation and the pull request that it holds name its exact HEAD; and it is neither ready to
  -- merge nor merged, nor would it resume there.
  pub create-Lives :
      (native : Native) (last : Run)
      → Reaches native (create_run target now id execution claim authority) last
      → Lives last
  create-Lives native last r = record {
    sound = Reaches-IsSound create_run-IsSound r;
    without_authority = Reaches-WithoutAuthority create_run-WithoutAuthority r;
  }
