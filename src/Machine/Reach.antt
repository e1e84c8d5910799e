-- ===== src/Machine/Reach.antt =====
-- Where a run can get by transitions: it stays in a terminal state, and no sequence of transitions
-- makes it ready to merge.
use tachiko_conductor.Prelude.{
  String, true, Option, none, some, ◌≡◌, refl, sym, subst, ◌∙◌, ◌↔◌, ◌⊎◌, inl, inr, ok, err, arith,
  if◌then◌else◌,
}
use tachiko_conductor.Types.Names.{WorkflowState, TransitionType}
use tachiko_conductor.Types.Run.{TransitionInput, Run}
use tachiko_conductor.Native.{Native}
use tachiko_conductor.Machine.Table.{transition_table, is_terminal}
use tachiko_conductor.Machine.Freshness.{ActiveValidationConfiguration}
use tachiko_conductor.Machine.Errors.{InvalidTransitionCode, invalid}
use tachiko_conductor.Machine.Apply.{assert_native, table_target, apply_transition, is_interrupt}
use tachiko_conductor.Machine.Accepted.{apply_transition-Accepted, Accepted-Fields}
use tachiko_conductor.Machine.Graph.{Documented, Undocumented, Moves, apply-Moves}

-- The terminal states of the README.
abbrev pub IsFinal : WorkflowState → Type 0
IsFinal s = (s ≡ WorkflowState.merged) ⊎ (s ≡ WorkflowState.failed)

-- A state has no transition exactly where it is MERGED or FAILED.
pub is_terminal-IsFinal : (s : WorkflowState) → (is_terminal s ≡ true) ↔ IsFinal s
unfolding is_terminal
is_terminal-IsFinal WorkflowState.merged = (λ _. inl refl, λ _. refl)
is_terminal-IsFinal WorkflowState.failed = (λ _. inr refl, λ _. refl)
is_terminal-IsFinal _ = (λ h. ground arith, λ h. ground arith)

final_table : (s : WorkflowState) (t : TransitionType) → IsFinal s → transition_table s t ≡ none
unfolding transition_table
final_table WorkflowState.merged t f = refl
final_table WorkflowState.failed t f = refl
final_table _ t f = ground arith

final_target :
    (run : Run) (input : TransitionInput)
    → IsFinal run.state
    → table_target run input (transition_table run.state input.type)
      ≡ err (invalid run input InvalidTransitionCode.terminal_state)
unfolding table_target
final_target run input f =
    rw (final_table run.state input.type f, (is_terminal-IsFinal run.state).1 f)

-- A run that has merged or failed accepts no transition: a refusal that is not for the native evidence
-- reports the terminal state.
pub final_refuses :
    (native : Native) (run : Run) (input : TransitionInput) (now : String)
    (active : Option ActiveValidationConfiguration)
    → IsFinal run.state
    → assert_native native run input ≡ ok tt
    → apply_transition native run input now active
      ≡ err (record {
        code = InvalidTransitionCode.terminal_state;
        from_state = run.state;
        transition = input.type;
      })
unfolding apply_transition
final_refuses native run input now active f h = rw (h, final_target run input f)

-- The states that only the workflow's final gate, outside the transitions, leads to.
abbrev pub IsAuthority : WorkflowState → Type 0
IsAuthority s = (s ≡ WorkflowState.merge_ready) ⊎ (s ≡ WorkflowState.merged)

-- Neither the state of the run nor the state that it would resume is one of them.
pub record WithoutAuthority (run : Run) : Type 0 where
  pub here : ¬ IsAuthority run.state
  pub resumes : (s : WorkflowState) → run.interrupted_from ≡ some s → ¬ IsAuthority s

-- Reachable by accepted transitions, at any times and under any validation configurations.
pub data Reaches (native : Native) (run : Run) : Run → Type 0 where
  stays : Reaches native run run
  steps :
      {middle last : Run} (input : TransitionInput) (now : String)
      (active : Option ActiveValidationConfiguration)
      → Reaches native run middle
      → apply_transition native middle input now active ≡ ok last
      → Reaches native run last

Documented-not-IsAuthority :
    {s : WorkflowState} {t : TransitionType} {u : WorkflowState}
    → Documented s t u
    → ¬ IsAuthority s
    → ¬ IsAuthority u
Documented-not-IsAuthority Documented.merge h = absurd (h (inl refl))
Documented-not-IsAuthority _ h = λ a. ground arith

Undocumented-not-IsAuthority :
    {s : WorkflowState} {t : TransitionType} {u : WorkflowState}
    → Undocumented s t u
    → ¬ IsAuthority u
Undocumented-not-IsAuthority Undocumented.prepare = λ a. ground arith
Undocumented-not-IsAuthority _ = λ a. ground arith

Moves-not-IsAuthority :
    {run : Run} {input : TransitionInput} {u : WorkflowState}
    → Moves run input u
    → WithoutAuthority run
    → ¬ IsAuthority u
Moves-not-IsAuthority (Moves.along e) w = Documented-not-IsAuthority e w.here
Moves-not-IsAuthority (Moves.beyond e) w = Undocumented-not-IsAuthority e
Moves-not-IsAuthority (Moves.resumed p e) w = w.resumes _ e
Moves-not-IsAuthority (Moves.resynchronized p h e) w = λ a. ground arith

resumed_from :
    (from to : WorkflowState) (old : Option WorkflowState) (s : WorkflowState)
    → (if is_interrupt from then none else if is_interrupt to then some from else old) ≡ some s
    → (s ≡ from) ⊎ (old ≡ some s)
resumed_from from to old s h = ground arith

apply-WithoutAuthority :
    (native : Native) (run : Run) (input : TransitionInput) (now : String)
    (active : Option ActiveValidationConfiguration) {next : Run}
    → apply_transition native run input now active ≡ ok next
    → WithoutAuthority run
    → WithoutAuthority next
apply-WithoutAuthority native run input now active {next} h w =
    let a = apply_transition-Accepted native run input now active h in
    let f = Accepted-Fields native run input now active a in
    record {
      here = Moves-not-IsAuthority (apply-Moves native run input now active h) w;
      resumes = λ s e.
          elim (resumed_from run.state a.to run.interrupted_from s (sym f.interrupted_from ∙ e)) [
            | inl same ↦ subst (λ (x : WorkflowState). ¬ IsAuthority x) (sym same) w.here
            | inr kept ↦ w.resumes s kept
          ];
    }

-- From a run that is neither MERGE_READY nor MERGED, and was not interrupted from one of the two, no
-- sequence of accepted transitions leads to either, nor to a run that would resume one of them.
pub Reaches-WithoutAuthority :
    {native : Native} {run last : Run}
    → WithoutAuthority run
    → Reaches native run last
    → WithoutAuthority last
Reaches-WithoutAuthority w stays = w
Reaches-WithoutAuthority {native} w (steps input now active r h) =
    apply-WithoutAuthority native _ input now active h (Reaches-WithoutAuthority w r)
