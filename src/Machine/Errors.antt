-- ===== src/Machine/Errors.antt =====
-- src/domain/state-machine.ts: the errors of a refused transition. The message, which is prose made
-- of the same three fields and the offending values, is left out.
use tachiko_conductor.Prelude.{Bool, Result, reject}
use tachiko_conductor.Types.Names.{WorkflowState, TransitionType}
use tachiko_conductor.Types.Run.{TransitionInput, Run}

pub data InvalidTransitionCode : Type 0 where
  invalid_native_evidence terminal_state unknown_transition missing_payload : InvalidTransitionCode
  wrong_verdict contradictory_review wrong_exit_status : InvalidTransitionCode
  executor_provider_mismatch executor_mutation_not_allowed : InvalidTransitionCode
  invalid_executor_identity invalid_bootstrap_identity : InvalidTransitionCode
  bootstrap_identity_mismatch invalid_pull_request_identity : InvalidTransitionCode
  unexpected_payload head_mutation_not_allowed missing_head_sha : InvalidTransitionCode
  empty_head_sha conflicting_head_sha stale_review stale_validation : InvalidTransitionCode
  invalid_validation_result fresh_review no_interrupt_context : InvalidTransitionCode
  invalid_repair_admission invalid_repair_handoff : InvalidTransitionCode

pub record InvalidTransitionError : Type 0 where
  pub code : InvalidTransitionCode
  pub from_state : WorkflowState
  pub transition : TransitionType

abbrev pub Checked : Type 0 → Type 0
Checked A = Result InvalidTransitionError A

abbrev pub invalid : Run → TransitionInput → InvalidTransitionCode → InvalidTransitionError
invalid run input code = record { code = code; from_state = run.state; transition = input.type }

-- `if (refused) throw new InvalidTransitionError(code, run.state, input.type, …)`
abbrev pub refuse : Run → TransitionInput → Bool → InvalidTransitionCode → Checked (Unit {0})
refuse run input refused code = reject refused (invalid run input code)
