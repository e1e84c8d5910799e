-- ===== src/Machine/Evidence.antt =====
-- src/domain/state-machine.ts: the second half of `assertPayload`, in its order.
use tachiko_conductor.Prelude.{
  ℕ, String, string_eq, nat_eq, option_eq, Bool, false, not, ◌&&◌, ◌||◌, ◌==◌, Option, none, some,
  [], ◌∷◌, any, ok, ◌>>◌, is_blank, trim, if◌then◌else◌,
}
use tachiko_conductor.Types.Names.{
  WorkflowState, state_eq, TransitionType, type_eq, AgentExitStatus, exit_eq, ReviewVerdict,
  verdict_eq, ValidationStatus, status_eq,
}
use tachiko_conductor.Types.Evidence.{
  Target, ImplementationBootstrapIdentity, ImplementationPullRequestIdentity, AgentResult,
  ExecutorIdentity, ReviewResult, ValidationResult,
}
use tachiko_conductor.Types.Run.{TransitionInput, Run}
use tachiko_conductor.Validation.{is_positive_safe_integer, is_validation_result_coherent}
use tachiko_conductor.Repair.Identity.{or_else, result_executor}
use tachiko_conductor.Machine.Table.{
  is_present, requires_agent_result, requires_review_result, updates_head,
}
use tachiko_conductor.Machine.Freshness.{
  ActiveValidationConfiguration, is_usable, is_review_bound_to_head,
  is_review_internally_consistent, is_validation_fresh,
}
use tachiko_conductor.Machine.Decisions.{
  is_authorized_human_head_sync, is_authorized_legacy_pull_request_recovery,
}
use tachiko_conductor.Machine.Errors.{InvalidTransitionCode, Checked, refuse}
use tachiko_conductor.Machine.Payload.{is_validation_outcome}

abbrev pub accepts_validation_result : WorkflowState → TransitionType → Bool
accepts_validation_result from type =
    is_validation_outcome type
    || from == WorkflowState.validating
      && (type == TransitionType.wait_dependency || type == TransitionType.escalate)

-- Payloads on transitions that do not produce them.
unfoldable pub assert_expected : Run → TransitionInput → Checked Unit
assert_expected run input = do
  refuse run input (not (requires_agent_result input.type) && is_present input.agent_result)
      InvalidTransitionCode.unexpected_payload
  refuse run input (not (requires_review_result input.type) && is_present input.review_result)
      InvalidTransitionCode.unexpected_payload
  refuse run input
      (is_present input.validation_result && not (accepts_validation_result run.state input.type))
      InvalidTransitionCode.unexpected_payload

-- `assertValidationResult`
unfoldable pub assert_validation_result : Run → TransitionInput → ValidationResult → Checked Unit
assert_validation_result run input v = do
  refuse run input (not (some v.head_sha == run.head_sha)) InvalidTransitionCode.stale_validation
  refuse run input (is_blank v.head_sha) InvalidTransitionCode.invalid_validation_result
  refuse run input (not (is_validation_result_coherent v))
      InvalidTransitionCode.invalid_validation_result

pull_request_at : Option String → Option ImplementationPullRequestIdentity → Bool
pull_request_at head none = false
pull_request_at head (some pr) = some pr.head_sha == head

names_pull_request : Option ℕ → Option ImplementationPullRequestIdentity → Bool
names_pull_request number none = false
names_pull_request number (some pr) = number == some pr.number

assert_validation_payload : Run → TransitionInput → Option ValidationResult → Checked Unit
unfolding assert_validation_result pull_request_at names_pull_request
assert_validation_payload run input none = ok tt
assert_validation_payload run input (some v) = do
  assert_validation_result run input v
  let accepted = or_else input.pull_request run.pull_request
  refuse run input (not (pull_request_at run.head_sha accepted))
      InvalidTransitionCode.missing_payload
  refuse run input (not (names_pull_request v.hosted.pull_request_number accepted))
      InvalidTransitionCode.invalid_validation_result

abbrev pub has_status : Option ValidationResult → ValidationStatus → Bool
has_status none status = false
has_status (some v) status = v.status == status

unfoldable pub assert_validation : Run → TransitionInput → Checked Unit
unfolding assert_validation_payload
assert_validation run input = do
  assert_validation_payload run input input.validation_result
  refuse run input
      (input.type == TransitionType.validation_passed
        && not (has_status input.validation_result ValidationStatus.passed))
      InvalidTransitionCode.invalid_validation_result
  refuse run input
      (input.type == TransitionType.validation_failed
        && not (has_status input.validation_result ValidationStatus.failed))
      InvalidTransitionCode.invalid_validation_result

same_bootstrap : ImplementationBootstrapIdentity → ImplementationBootstrapIdentity → Bool
same_bootstrap a b =
    a.owner == b.owner
    && a.repo == b.repo
    && a.issue_number == b.issue_number
    && a.base_branch == b.base_branch
    && a.base_sha == b.base_sha
    && a.branch == b.branch
    && a.workspace_path == b.workspace_path

target_matches : Target → ImplementationBootstrapIdentity → Bool
target_matches (Target.issue owner repo number) b =
    b.owner == owner && b.repo == repo && b.issue_number == number
target_matches (Target.repository owner repo branch publication) b = false

other_bootstrap : Option ImplementationBootstrapIdentity → ImplementationBootstrapIdentity → Bool
unfolding same_bootstrap
other_bootstrap none b = false
other_bootstrap (some a) b = not (same_bootstrap a b)

assert_bootstrap_payload :
    Run → TransitionInput → Option ImplementationBootstrapIdentity → Checked Unit
unfolding target_matches other_bootstrap
assert_bootstrap_payload run input none = ok tt
assert_bootstrap_payload run input (some b) = do
  refuse run input
      (not (target_matches run.target b)
        || any is_blank
            (b.owner ∷ b.repo ∷ b.base_branch ∷ b.base_sha ∷ b.branch ∷ b.workspace_path ∷ []))
      InvalidTransitionCode.invalid_bootstrap_identity
  refuse run input (other_bootstrap run.bootstrap b)
      InvalidTransitionCode.bootstrap_identity_mismatch

unfoldable pub assert_bootstrap : Run → TransitionInput → Checked Unit
unfolding assert_bootstrap_payload
assert_bootstrap run input = do
  refuse run input
      (not (input.type == TransitionType.bootstrap_prepared) && is_present input.bootstrap)
      InvalidTransitionCode.unexpected_payload
  assert_bootstrap_payload run input input.bootstrap

abbrev pub result_head : Option AgentResult → Option String
result_head none = none
result_head (some r) = r.head_sha

abbrev pub trim_option : Option String → Option String
trim_option none = none
trim_option (some s) = some (trim s)

-- `(input.headSha ?? input.agentResult?.headSha)?.trim()`
unfoldable pub reported_head : TransitionInput → Option String
reported_head input = trim_option (or_else input.head_sha (result_head input.agent_result))

unfoldable pub expected_head : Run → TransitionInput → Option String
expected_head run input =
    if input.type == TransitionType.agent_succeeded || is_authorized_human_head_sync run input
    then reported_head input
    else run.head_sha

abbrev pub other_number :
    Option ImplementationPullRequestIdentity → ImplementationPullRequestIdentity → Bool
other_number none pr = false
other_number (some accepted) pr = not (pr.number == accepted.number)

abbrev pub pull_request_invalid : Run → TransitionInput → ImplementationPullRequestIdentity → Bool
pull_request_invalid run input pr =
    not (is_positive_safe_integer pr.number)
    || is_blank pr.head_sha
    || not (some pr.head_sha == expected_head run input)
    || other_number run.pull_request pr

assert_pull_request_payload :
    Run → TransitionInput → Option ImplementationPullRequestIdentity → Checked Unit
assert_pull_request_payload run input none = ok tt
assert_pull_request_payload run input (some pr) =
    refuse run input (pull_request_invalid run input pr)
      InvalidTransitionCode.invalid_pull_request_identity

-- A pull request with a transition that neither delivers, nor validates, nor is a human decision for it.
unfoldable pub pull_request_unexpected : Run → TransitionInput → Bool
pull_request_unexpected run input =
    is_present input.pull_request
    && not (input.type == TransitionType.agent_succeeded)
    && not (run.state == WorkflowState.validating && is_present input.validation_result)
    && not (is_authorized_human_head_sync run input)
    && not (is_authorized_legacy_pull_request_recovery run input)

-- No pull request where the run owns one, or a workspace, and its HEAD is accepted anew.
unfoldable pub pull_request_missing : Run → TransitionInput → Bool
pull_request_missing run input =
    ((is_present run.bootstrap || is_present run.pull_request)
        && input.type == TransitionType.agent_succeeded
      || is_present run.pull_request && is_authorized_human_head_sync run input)
    && not (is_present input.pull_request)

unfoldable pub assert_pull_request : Run → TransitionInput → Checked Unit
unfolding assert_pull_request_payload
assert_pull_request run input = do
  refuse run input (pull_request_unexpected run input) InvalidTransitionCode.unexpected_payload
  assert_pull_request_payload run input input.pull_request
  refuse run input (pull_request_missing run input) InvalidTransitionCode.missing_payload

abbrev blank_identity : Option ExecutorIdentity → Bool
blank_identity none = false
blank_identity (some i) = is_blank i.provider || is_blank i.session_id

abbrev other_provider : Option ExecutorIdentity → Option ExecutorIdentity → Bool
other_provider (some i) (some j) = not (i.provider == j.provider)
other_provider _ _ = false

unfoldable pub assert_executor : Run → TransitionInput → Checked Unit
assert_executor run input = do
  refuse run input
      (is_present input.executor
        && (not (input.type == TransitionType.escalate)
            || not (run.state == WorkflowState.implementing)))
      InvalidTransitionCode.executor_mutation_not_allowed
  refuse run input (blank_identity input.executor) InvalidTransitionCode.invalid_executor_identity
  refuse run input (other_provider input.executor run.executor)
      InvalidTransitionCode.executor_provider_mismatch

abbrev blank_text : Option String → Bool
blank_text none = false
blank_text (some s) = is_blank s

unfoldable pub assert_head : Run → TransitionInput → Checked Unit
assert_head run input = do
  refuse run input
      (not (updates_head input.type)
        && not (is_authorized_human_head_sync run input)
        && is_present input.head_sha)
      InvalidTransitionCode.head_mutation_not_allowed
  refuse run input (is_authorized_human_head_sync run input && blank_text input.head_sha)
      InvalidTransitionCode.empty_head_sha
  refuse run input (is_authorized_human_head_sync run input && not (is_present input.head_sha))
      InvalidTransitionCode.missing_head_sha

abbrev other_status : Option AgentResult → AgentExitStatus → Bool
other_status none status = false
other_status (some r) status = not (r.exit_status == status)

heads_conflict : Option String → Option String → Bool
heads_conflict (some a) (some b) = not (is_blank a) && not (is_blank b) && not (trim a == trim b)
heads_conflict _ _ = false

unfoldable pub assert_agent : Run → TransitionInput → Checked Unit
unfolding heads_conflict
assert_agent run input = do
  let succeeded = input.type == TransitionType.agent_succeeded
  let result = input.agent_result
  refuse run input (succeeded && other_status result AgentExitStatus.success)
      InvalidTransitionCode.wrong_exit_status
  refuse run input
      (input.type == TransitionType.agent_failed && other_status result AgentExitStatus.failure)
      InvalidTransitionCode.wrong_exit_status
  refuse run input
      (requires_agent_result input.type && other_provider run.executor (result_executor result))
      InvalidTransitionCode.executor_provider_mismatch
  refuse run input (succeeded && blank_text input.head_sha) InvalidTransitionCode.empty_head_sha
  refuse run input (succeeded && blank_text (result_head result))
      InvalidTransitionCode.empty_head_sha
  refuse run input
      (succeeded && not (is_usable input.head_sha) && not (is_usable (result_head result)))
      InvalidTransitionCode.missing_head_sha
  refuse run input (succeeded && heads_conflict input.head_sha (result_head result))
      InvalidTransitionCode.conflicting_head_sha
  refuse run input (input.type == TransitionType.human_resolved && blank_text input.head_sha)
      InvalidTransitionCode.empty_head_sha

abbrev other_verdict : Option ReviewResult → ReviewVerdict → Bool
other_verdict none verdict = false
other_verdict (some r) verdict = not (r.verdict == verdict)

inconsistent : Option ReviewResult → Bool
inconsistent none = false
inconsistent (some r) = not (is_review_internally_consistent r)

unbound : Run → Option ReviewResult → Bool
unbound run none = false
unbound run (some r) = not (is_review_bound_to_head run r)

-- Coherent evidence for the accepted pull request and the exact HEAD.
unfoldable pub evidence_admits :
    Option ImplementationPullRequestIdentity → Option String → Option ValidationResult → Bool
evidence_admits (some pr) (some head) (some v) =
    is_validation_result_coherent v
    && v.head_sha == head
    && v.hosted.pull_request_number == some pr.number
evidence_admits _ _ _ = false

unfoldable pub fresh_under : Run → Option ActiveValidationConfiguration → Bool
fresh_under run none = false
fresh_under run (some active) = is_validation_fresh run active

unfoldable pub assert_review :
    Run → TransitionInput → Option ActiveValidationConfiguration → Checked Unit
unfolding inconsistent unbound evidence_admits fresh_under
assert_review run input active = do
  let review = input.review_result
  let reviewing = requires_review_result input.type
  refuse run input
      (input.type == TransitionType.review_approved && other_verdict review ReviewVerdict.approve)
      InvalidTransitionCode.wrong_verdict
  refuse run input
      (input.type == TransitionType.changes_requested
        && other_verdict review ReviewVerdict.request_changes)
      InvalidTransitionCode.wrong_verdict
  refuse run input (input.type == TransitionType.review_approved && inconsistent review)
      InvalidTransitionCode.contradictory_review
  refuse run input (reviewing && unbound run review) InvalidTransitionCode.stale_review
  refuse run input
      (reviewing && not (evidence_admits run.pull_request run.head_sha run.validation_result))
      InvalidTransitionCode.stale_validation
  refuse run input (reviewing && not (fresh_under run active))
      InvalidTransitionCode.stale_validation
