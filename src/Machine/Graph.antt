-- ===== src/Machine/Graph.antt =====
-- The README's table of transitions, those of the code that it leaves out, and that the state machine
-- follows the two.
use tachiko_conductor.Prelude.{
  String, true, false, Option, none, some, ◌≡◌, refl, sym, subst, ◌↔◌, ◌⊎◌, inl, inr, ok, arith,
  Bool-cases,
}
use tachiko_conductor.Types.Names.{WorkflowState, TransitionType}
use tachiko_conductor.Types.Run.{TransitionInput, Run}
use tachiko_conductor.Native.{Native}
use tachiko_conductor.Machine.Table.{TransitionTarget, transition_table}
use tachiko_conductor.Machine.Freshness.{ActiveValidationConfiguration}
use tachiko_conductor.Machine.Decisions.{is_authorized_human_head_sync}
use tachiko_conductor.Machine.Apply.{
  table_target, next_state, resume_state, apply_transition, is_interrupt,
}
use tachiko_conductor.Machine.Accepted.{apply_transition-Accepted, Accepted-Fields}

-- A state in which work goes on.
pub data IsActive : WorkflowState → Type 0 where
  ready : IsActive WorkflowState.ready
  implementing : IsActive WorkflowState.implementing
  validating : IsActive WorkflowState.validating
  reviewing : IsActive WorkflowState.reviewing
  changes_requested : IsActive WorkflowState.changes_requested
  final_gate : IsActive WorkflowState.final_gate
  merge_ready : IsActive WorkflowState.merge_ready

-- A state in which the run waits.
pub data IsParked : WorkflowState → Type 0 where
  waiting_dependency : IsParked WorkflowState.waiting_dependency
  needs_human : IsParked WorkflowState.needs_human

-- The rows of the README's table of transitions that name their target; it says that anything else
-- throws.
pub data Documented : WorkflowState → TransitionType → WorkflowState → Type 0 where
  begin : Documented WorkflowState.ready TransitionType.start WorkflowState.implementing
  deliver :
      Documented WorkflowState.implementing TransitionType.agent_succeeded WorkflowState.validating
  break_down :
      Documented WorkflowState.implementing TransitionType.agent_failed WorkflowState.failed
  validate :
      Documented WorkflowState.validating TransitionType.validation_passed WorkflowState.reviewing
  invalidate :
      Documented WorkflowState.validating TransitionType.validation_failed
        WorkflowState.changes_requested
  approve :
      Documented WorkflowState.reviewing TransitionType.review_approved WorkflowState.final_gate
  object :
      Documented WorkflowState.reviewing TransitionType.changes_requested
        WorkflowState.changes_requested
  repair :
      Documented WorkflowState.changes_requested TransitionType.start_fix WorkflowState.implementing
  redo_gate : Documented WorkflowState.final_gate TransitionType.revalidate WorkflowState.validating
  block : Documented WorkflowState.final_gate TransitionType.gate_blocked WorkflowState.reviewing
  merge : Documented WorkflowState.merge_ready TransitionType.merged WorkflowState.merged
  wait :
      {s : WorkflowState}
      → IsActive s
      → Documented s TransitionType.wait_dependency WorkflowState.waiting_dependency
  escalate :
      {s : WorkflowState}
      → IsActive s
      → Documented s TransitionType.escalate WorkflowState.needs_human
  fail : {s : WorkflowState} → IsActive s → Documented s TransitionType.fail WorkflowState.failed
  fail_parked :
      {s : WorkflowState} → IsParked s → Documented s TransitionType.fail WorkflowState.failed

-- The rows of the README's table that resume the interrupted state.
pub data Resumes : WorkflowState → TransitionType → Type 0 where
  satisfied : Resumes WorkflowState.waiting_dependency TransitionType.dependency_satisfied
  resolved : Resumes WorkflowState.needs_human TransitionType.human_resolved

-- The transitions of the code that the README's table has no row for.
pub data Undocumented : WorkflowState → TransitionType → WorkflowState → Type 0 where
  prepare :
      Undocumented WorkflowState.implementing TransitionType.bootstrap_prepared
        WorkflowState.implementing
  hand_over :
      Undocumented WorkflowState.implementing TransitionType.repair_executor_handoff
        WorkflowState.implementing
  hand_on :
      Undocumented WorkflowState.implementing TransitionType.repair_executor_continued
        WorkflowState.implementing
  redo_reviewing :
      Undocumented WorkflowState.reviewing TransitionType.revalidate WorkflowState.validating
  redo_changes :
      Undocumented WorkflowState.changes_requested TransitionType.revalidate
        WorkflowState.validating
  recheck :
      Undocumented WorkflowState.merge_ready TransitionType.recheck_readiness
        WorkflowState.final_gate

ruleset edges = (
  inl, inr, begin, deliver, break_down, validate, invalidate, approve, object, repair, redo_gate,
  block, merge, wait, escalate, fail, fail_parked, prepare, hand_over, hand_on, redo_reviewing,
  redo_changes, recheck, satisfied, resolved,
)

ruleset kinds = (
  IsActive.ready, IsActive.implementing, IsActive.validating, IsActive.reviewing,
  IsActive.changes_requested, IsActive.final_gate, IsActive.merge_ready, waiting_dependency,
  needs_human,
)

-- What the README says of an entry of the table, if it says anything.
abbrev IsEdge : WorkflowState → TransitionType → Option TransitionTarget → Type 0
IsEdge s t (some (TransitionTarget.to u)) = Documented s t u ⊎ Undocumented s t u
IsEdge s t (some TransitionTarget.resume) = Resumes s t
IsEdge s t none = Unit

table-IsEdge : (s : WorkflowState) (t : TransitionType) → IsEdge s t (transition_table s t)
unfolding transition_table
table-IsEdge WorkflowState.ready TransitionType.start = inl begin
table-IsEdge WorkflowState.implementing TransitionType.start = tt
table-IsEdge WorkflowState.validating TransitionType.start = tt
table-IsEdge WorkflowState.reviewing TransitionType.start = tt
table-IsEdge WorkflowState.changes_requested TransitionType.start = tt
table-IsEdge WorkflowState.final_gate TransitionType.start = tt
table-IsEdge WorkflowState.merge_ready TransitionType.start = tt
table-IsEdge WorkflowState.merged TransitionType.start = tt
table-IsEdge WorkflowState.waiting_dependency TransitionType.start = tt
table-IsEdge WorkflowState.needs_human TransitionType.start = tt
table-IsEdge WorkflowState.failed TransitionType.start = tt
table-IsEdge _ _ = search (edges, kinds)

pub IsActive-is_interrupt : {s : WorkflowState} → IsActive s → is_interrupt s ≡ false
IsActive-is_interrupt IsActive.ready = refl
IsActive-is_interrupt _ = refl

pub IsActive-table :
    {s : WorkflowState}
    → IsActive s
    → (transition_table s TransitionType.wait_dependency
        ≡ some (TransitionTarget.to WorkflowState.waiting_dependency))
      × (transition_table s TransitionType.escalate
          ≡ some (TransitionTarget.to WorkflowState.needs_human))
      × (transition_table s TransitionType.fail ≡ some (TransitionTarget.to WorkflowState.failed))
unfolding transition_table
IsActive-table IsActive.ready = (refl, refl, refl)
IsActive-table _ = (refl, refl, refl)

IsParked-table :
    {s : WorkflowState}
    → IsParked s
    → transition_table s TransitionType.fail ≡ some (TransitionTarget.to WorkflowState.failed)
unfolding transition_table
IsParked-table waiting_dependency = refl
IsParked-table needs_human = refl

Documented-table :
    {s : WorkflowState} {t : TransitionType} {u : WorkflowState}
    → Documented s t u
    → transition_table s t ≡ some (TransitionTarget.to u)
unfolding transition_table
Documented-table begin = refl
Documented-table (wait a) = (IsActive-table a).0
Documented-table (escalate a) = (IsActive-table a).1
Documented-table (fail a) = (IsActive-table a).2
Documented-table (fail_parked p) = IsParked-table p
Documented-table _ = refl

Undocumented-table :
    {s : WorkflowState} {t : TransitionType} {u : WorkflowState}
    → Undocumented s t u
    → transition_table s t ≡ some (TransitionTarget.to u)
unfolding transition_table
Undocumented-table prepare = refl
Undocumented-table _ = refl

Resumes-table :
    {s : WorkflowState} {t : TransitionType}
    → Resumes s t
    → transition_table s t ≡ some TransitionTarget.resume
unfolding transition_table
Resumes-table satisfied = refl
Resumes-table resolved = refl

-- The row that a transition of the code has not.
Undocumented-not-Documented :
    {s : WorkflowState} {t : TransitionType} {u v : WorkflowState}
    → Undocumented s t u
    → ¬ Documented s t v
Undocumented-not-Documented prepare d = elim d [ ]
Undocumented-not-Documented hand_over d = elim d [ ]
Undocumented-not-Documented hand_on d = elim d [ ]
Undocumented-not-Documented redo_reviewing d = elim d [ ]
Undocumented-not-Documented redo_changes d = elim d [ ]
Undocumented-not-Documented recheck d = elim d [ ]

-- The transition table has every row of the README's table, those that resume the interrupted state
-- included, and besides them exactly the six rows of `Undocumented`, none of which the README has: it
-- accepts `revalidate` from REVIEWING and CHANGES_REQUESTED, which the README says throws.
pub table-eq-Documented :
    (s : WorkflowState) (t : TransitionType)
    → ((u : WorkflowState)
        → (transition_table s t ≡ some (TransitionTarget.to u))
          ↔ (Documented s t u ⊎ Undocumented s t u))
      × ((transition_table s t ≡ some TransitionTarget.resume) ↔ Resumes s t)
      × ((u v : WorkflowState) → Undocumented s t u → ¬ Documented s t v)
table-eq-Documented s t = (
  λ u. (
    λ h. subst (IsEdge s t) h (table-IsEdge s t),
    λ e. elim e [ inl d ↦ Documented-table d | inr x ↦ Undocumented-table x ],
  ),
  (λ h. subst (IsEdge s t) h (table-IsEdge s t), Resumes-table),
  λ u v. Undocumented-not-Documented,
)

-- The ways out of an accepted transition: a row of the README, one that it leaves out, or a resumption.
pub data Moves (run : Run) (input : TransitionInput) : WorkflowState → Type 0 where
  along : {u : WorkflowState} → Documented run.state input.type u → Moves run input u
  beyond : {u : WorkflowState} → Undocumented run.state input.type u → Moves run input u
  resumed :
      {u : WorkflowState}
      → Resumes run.state input.type
      → run.interrupted_from ≡ some u
      → Moves run input u
  resynchronized :
      {u : WorkflowState}
      → Resumes run.state input.type
      → is_authorized_human_head_sync run input ≡ true
      → u ≡ WorkflowState.validating
      → Moves run input u

pub Resumes-IsParked : {s : WorkflowState} {t : TransitionType} → Resumes s t → IsParked s
Resumes-IsParked satisfied = waiting_dependency
Resumes-IsParked resolved = needs_human

resume-Moves :
    (run : Run) (input : TransitionInput) (from : Option WorkflowState) (u : WorkflowState)
    → Resumes run.state input.type
    → run.interrupted_from ≡ from
    → resume_state run input from ≡ ok u
    → Moves run input u
unfolding resume_state
resume-Moves run input none u p e h = cc
resume-Moves run input (some s) u p e h =
    elim (Bool-cases (is_authorized_human_head_sync run input)) [
      | inl sync ↦ resynchronized p sync (ground arith)
      | inr other ↦ resumed p (ground arith)
    ]

target-Moves :
    (run : Run) (input : TransitionInput) (target : TransitionTarget) (u : WorkflowState)
    → transition_table run.state input.type ≡ some target
    → next_state run input target ≡ ok u
    → Moves run input u
unfolding next_state
target-Moves run input (TransitionTarget.to s) u e h =
    elim (((table-eq-Documented run.state input.type).0 u).0 (ground arith)) [
      | inl d ↦ along d
      | inr x ↦ beyond x
    ]
target-Moves run input TransitionTarget.resume u e h =
    resume-Moves run input run.interrupted_from u
      (subst (IsEdge run.state input.type) e (table-IsEdge run.state input.type)) refl h

on_table :
    (run : Run) (input : TransitionInput) (o : Option TransitionTarget) {target : TransitionTarget}
    → table_target run input o ≡ ok target
    → o ≡ some target
unfolding table_target
on_table run input none h = cc
on_table run input (some t) h = cc

module _ (native : Native) (run : Run) (input : TransitionInput) (now : String)
    (active : Option ActiveValidationConfiguration) {next : Run} where
  -- Every accepted transition follows a row of the README's table, or is one of the six that the README
  -- leaves out, or resumes a parked run, by the transition of its waiting state, in the state that it
  -- was interrupted from, or, on an authorized synchronization of the HEAD, in VALIDATING.
  pub apply-Moves :
      apply_transition native run input now active ≡ ok next → Moves run input next.state
  apply-Moves h =
      let a = apply_transition-Accepted native run input now active h in
      subst (Moves run input) (sym (Accepted-Fields native run input now active a).state) (
        target-Moves run input a.target a.to
          (on_table run input (transition_table run.state input.type) a.on_table) a.to_eq)
