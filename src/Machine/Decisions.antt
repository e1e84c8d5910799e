-- ===== src/Machine/Decisions.antt =====
-- src/domain/decisions.ts, and the two tests of src/domain/state-machine.ts that let a human decision
-- move an interrupted run.
use tachiko_conductor.Prelude.{
  String, string_eq, Bool, true, false, not, option_eq, ◌&&◌, ◌||◌, ◌==◌, Option, none, some, List,
  includes, trim,
}
use tachiko_conductor.Types.Names.{WorkflowState, state_eq, TransitionType, type_eq}
use tachiko_conductor.Types.Run.{Interrupt, TransitionInput, Run}
use tachiko_conductor.Machine.Table.{is_present}

abbrev pub live_head_sync_decision : String
live_head_sync_decision = "Sync the run to the live HEAD and continue"

abbrev pub reestablish_readiness_decision : String
reestablish_readiness_decision = "Re-establish current readiness authority"

abbrev pub recover_legacy_pull_request_decision : String
recover_legacy_pull_request_decision =
    "Re-establish the accepted pull request and exact HEAD, then retry"

unfoldable pub can_synchronize_interrupted_head : Option WorkflowState → Bool
can_synchronize_interrupted_head (some WorkflowState.implementing) = true
can_synchronize_interrupted_head (some WorkflowState.validating) = true
can_synchronize_interrupted_head (some WorkflowState.reviewing) = true
can_synchronize_interrupted_head (some WorkflowState.changes_requested) = true
can_synchronize_interrupted_head (some WorkflowState.final_gate) = true
can_synchronize_interrupted_head _ = false

unfoldable pub can_reestablish_interrupted_readiness : Option WorkflowState → Bool
can_reestablish_interrupted_readiness (some WorkflowState.merge_ready) = true
can_reestablish_interrupted_readiness _ = false

unfoldable pub can_recover_legacy_pull_request : Option WorkflowState → Bool
can_recover_legacy_pull_request (some WorkflowState.changes_requested) = true
can_recover_legacy_pull_request _ = false

-- `input.reason?.trim() === decision`
decides_for : Option String → String → Bool
decides_for none decision = false
decides_for (some reason) decision = trim reason == decision

choices_offer : Option (List String) → String → Bool
choices_offer none decision = false
choices_offer (some choices) decision = includes decision choices

-- `run.interrupt?.choices?.includes(decision)`
offers : Option Interrupt → String → Bool
unfolding choices_offer
offers none decision = false
offers (some interrupt) decision = choices_offer interrupt.choices decision

chosen : Run → TransitionInput → String → Bool
unfolding decides_for offers
chosen run input decision =
    input.type == TransitionType.human_resolved
    && decides_for input.reason decision
    && run.state == WorkflowState.needs_human
    && offers run.interrupt decision

unfoldable pub is_authorized_human_head_sync : Run → TransitionInput → Bool
unfolding chosen
is_authorized_human_head_sync run input =
    chosen run input live_head_sync_decision
      && can_synchronize_interrupted_head run.interrupted_from
    || chosen run input reestablish_readiness_decision
      && can_reestablish_interrupted_readiness run.interrupted_from

unfoldable pub is_authorized_legacy_pull_request_recovery : Run → TransitionInput → Bool
unfolding chosen
is_authorized_legacy_pull_request_recovery run input =
    chosen run input recover_legacy_pull_request_decision
    && run.interrupted_from == some WorkflowState.changes_requested
    && not (is_present run.pull_request)
