-- ===== src/Machine/Table.antt =====
-- src/domain/state-machine.ts: the transition table.
use tachiko_conductor.Prelude.{
  Bool, true, false, Option, none, some, List, [], ◌∷◌, nat_eq, ◌==◌, length, filter_by,
}
use tachiko_conductor.Types.Names.{WorkflowState, TransitionType}

-- `resume` is the state that the run was interrupted from.
pub data TransitionTarget : Type 0 where
  to : WorkflowState → TransitionTarget
  resume : TransitionTarget

-- The transitions out of its work that every active state allows.
interrupting : TransitionType → Option TransitionTarget
interrupting TransitionType.wait_dependency =
    some (TransitionTarget.to WorkflowState.waiting_dependency)
interrupting TransitionType.escalate = some (TransitionTarget.to WorkflowState.needs_human)
interrupting TransitionType.fail = some (TransitionTarget.to WorkflowState.failed)
interrupting _ = none

unfoldable pub transition_table : WorkflowState → TransitionType → Option TransitionTarget
unfolding interrupting
transition_table WorkflowState.ready TransitionType.start =
    some (TransitionTarget.to WorkflowState.implementing)
transition_table WorkflowState.ready t = interrupting t
transition_table WorkflowState.implementing TransitionType.bootstrap_prepared =
    some (TransitionTarget.to WorkflowState.implementing)
transition_table WorkflowState.implementing TransitionType.repair_executor_handoff =
    some (TransitionTarget.to WorkflowState.implementing)
transition_table WorkflowState.implementing TransitionType.repair_executor_continued =
    some (TransitionTarget.to WorkflowState.implementing)
transition_table WorkflowState.implementing TransitionType.agent_succeeded =
    some (TransitionTarget.to WorkflowState.validating)
transition_table WorkflowState.implementing TransitionType.agent_failed =
    some (TransitionTarget.to WorkflowState.failed)
transition_table WorkflowState.implementing t = interrupting t
transition_table WorkflowState.validating TransitionType.validation_passed =
    some (TransitionTarget.to WorkflowState.reviewing)
transition_table WorkflowState.validating TransitionType.validation_failed =
    some (TransitionTarget.to WorkflowState.changes_requested)
transition_table WorkflowState.validating t = interrupting t
transition_table WorkflowState.reviewing TransitionType.review_approved =
    some (TransitionTarget.to WorkflowState.final_gate)
transition_table WorkflowState.reviewing TransitionType.changes_requested =
    some (TransitionTarget.to WorkflowState.changes_requested)
transition_table WorkflowState.reviewing TransitionType.revalidate =
    some (TransitionTarget.to WorkflowState.validating)
transition_table WorkflowState.reviewing t = interrupting t
transition_table WorkflowState.changes_requested TransitionType.start_fix =
    some (TransitionTarget.to WorkflowState.implementing)
transition_table WorkflowState.changes_requested TransitionType.revalidate =
    some (TransitionTarget.to WorkflowState.validating)
transition_table WorkflowState.changes_requested t = interrupting t
transition_table WorkflowState.final_gate TransitionType.revalidate =
    some (TransitionTarget.to WorkflowState.validating)
transition_table WorkflowState.final_gate TransitionType.gate_blocked =
    some (TransitionTarget.to WorkflowState.reviewing)
transition_table WorkflowState.final_gate t = interrupting t
transition_table WorkflowState.merge_ready TransitionType.recheck_readiness =
    some (TransitionTarget.to WorkflowState.final_gate)
transition_table WorkflowState.merge_ready TransitionType.merged =
    some (TransitionTarget.to WorkflowState.merged)
transition_table WorkflowState.merge_ready t = interrupting t
transition_table WorkflowState.waiting_dependency TransitionType.dependency_satisfied =
    some TransitionTarget.resume
transition_table WorkflowState.waiting_dependency TransitionType.fail =
    some (TransitionTarget.to WorkflowState.failed)
transition_table WorkflowState.needs_human TransitionType.human_resolved =
    some TransitionTarget.resume
transition_table WorkflowState.needs_human TransitionType.fail =
    some (TransitionTarget.to WorkflowState.failed)
transition_table _ _ = none

abbrev pub is_present {ℓ} : {A : Type ℓ} → Option A → Bool
is_present none = false
is_present (some a) = true

unfoldable pub can_transition : WorkflowState → TransitionType → Bool
unfolding transition_table
can_transition from type = is_present (transition_table from type)

-- All transitions, in the order of their names.
abbrev pub transition_types : List TransitionType
transition_types =
    TransitionType.agent_failed ∷ TransitionType.agent_succeeded ∷ TransitionType.bootstrap_prepared
    ∷ TransitionType.changes_requested ∷ TransitionType.dependency_satisfied
    ∷ TransitionType.escalate ∷ TransitionType.fail ∷ TransitionType.gate_blocked
    ∷ TransitionType.human_resolved ∷ TransitionType.merged ∷ TransitionType.recheck_readiness
    ∷ TransitionType.repair_executor_continued ∷ TransitionType.repair_executor_handoff
    ∷ TransitionType.revalidate ∷ TransitionType.review_approved ∷ TransitionType.start
    ∷ TransitionType.start_fix ∷ TransitionType.validation_failed ∷ TransitionType.validation_passed
    ∷ TransitionType.wait_dependency ∷ []

unfoldable pub allowed_transitions : WorkflowState → List TransitionType
unfolding can_transition
allowed_transitions state = filter_by (can_transition state) transition_types

unfoldable pub is_terminal : WorkflowState → Bool
unfolding allowed_transitions
is_terminal state = length (allowed_transitions state) == 0

abbrev pub requires_agent_result : TransitionType → Bool
requires_agent_result TransitionType.agent_succeeded = true
requires_agent_result TransitionType.agent_failed = true
requires_agent_result _ = false

abbrev pub requires_review_result : TransitionType → Bool
requires_review_result TransitionType.review_approved = true
requires_review_result TransitionType.changes_requested = true
requires_review_result _ = false

-- HEAD_UPDATING_TRANSITIONS
abbrev pub updates_head : TransitionType → Bool
updates_head TransitionType.agent_succeeded = true
updates_head TransitionType.agent_failed = true
updates_head _ = false
