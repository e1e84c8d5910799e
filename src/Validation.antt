-- ===== src/Validation.antt =====
-- src/domain/validation.ts: when the compact evidence of a validation agrees with itself.
-- The source reads a value of type `unknown`; here it is typed evidence, so the tests that its type
-- settles (`typeof`, membership in a closed vocabulary) are gone and the others are kept.
pub mod Coherence
use tachiko_conductor.Prelude.{
  ℕ, suc, String, string_eq, nat_eq, option_eq, Bool, true, false, not, ◌&&◌, ◌||◌, ◌==◌, Option,
  none, some, List, [], ◌∷◌, ltb, leb, all, any, length, get_last?, includes, is_blank,
  if◌then◌else◌,
}
use tachiko_conductor.Types.Names.{
  ValidationStatus, status_eq, LocalStatus, HostedStatus, hosted_eq, CommandOutcome, Availability,
  HostedOverall, PolicyMode,
}
use tachiko_conductor.Types.Evidence.{
  LocalValidationCommandEvidence, LocalValidationEvidence, HostedValidationEvidence,
  ValidationResult,
}

-- `Number.MAX_SAFE_INTEGER`
abbrev pub max_safe_integer : ℕ
max_safe_integer = 9007199254740991

abbrev pub is_safe_integer : ℕ → Bool
is_safe_integer n = leb n max_safe_integer

abbrev pub is_positive_safe_integer : ℕ → Bool
is_positive_safe_integer n = is_safe_integer n && leb 1 n

-- A text that may be `null` and is not blank otherwise.
abbrev null_or_text : Option String → Bool
null_or_text none = true
null_or_text (some s) = not (is_blank s)

abbrev is_malformed : CommandOutcome → Bool
is_malformed CommandOutcome.malformed = true
is_malformed _ = false

-- Each command stands at its own index, names its executable unless it is malformed, and has a
-- duration that is a safe integer.
commands_well_formed : ℕ → List LocalValidationCommandEvidence → Bool
commands_well_formed index [] = true
commands_well_formed index (c ∷ cs) =
    c.command_index == index
    && (not (is_blank c.executable) || is_malformed c.outcome)
    && is_safe_integer c.duration_ms
    && commands_well_formed (suc index) cs

abbrev pub passed_with : CommandOutcome → Option ℕ → Bool
passed_with CommandOutcome.passed (some n) = n == 0
passed_with _ _ = false

abbrev pub command_passed : LocalValidationCommandEvidence → Bool
command_passed c = passed_with c.outcome c.exit_code

abbrev pub failed_with : CommandOutcome → Option ℕ → Bool
failed_with CommandOutcome.timed_out exit = true
failed_with CommandOutcome.failed exit = not (exit == some 0)
failed_with _ _ = false

abbrev pub command_failed : LocalValidationCommandEvidence → Bool
command_failed c = failed_with c.outcome c.exit_code

abbrev pub inconclusive_with : CommandOutcome → Bool
inconclusive_with CommandOutcome.unavailable = true
inconclusive_with CommandOutcome.malformed = true
inconclusive_with _ = false

abbrev pub command_inconclusive : LocalValidationCommandEvidence → Bool
command_inconclusive c = inconclusive_with c.outcome

abbrev is_final :
    (LocalValidationCommandEvidence → Bool) → Option LocalValidationCommandEvidence → Bool
is_final p none = false
is_final p (some c) = p c

local_status_agrees : LocalStatus → Option String → List LocalValidationCommandEvidence → Bool
local_status_agrees LocalStatus.passed revision commands =
    ltb 0 (length commands) && all command_passed commands
local_status_agrees LocalStatus.failed revision commands =
    is_final command_failed (get_last? commands)
local_status_agrees LocalStatus.unknown revision commands =
    (revision == none && length commands == 0) || is_final command_inconclusive (get_last? commands)

unfoldable pub is_local_evidence : LocalValidationEvidence → Bool
unfolding commands_well_formed local_status_agrees
is_local_evidence e =
    null_or_text e.config_revision
    && commands_well_formed 0 e.commands
    && local_status_agrees e.status e.config_revision e.commands

-- What the provider's aggregate says, where checks are available at all.
abbrev pub expected_hosted : Availability → HostedOverall → HostedStatus
expected_hosted Availability.unavailable overall = HostedStatus.unknown
expected_hosted Availability.available HostedOverall.passing = HostedStatus.passed
expected_hosted Availability.available HostedOverall.failing = HostedStatus.failed
expected_hosted Availability.available HostedOverall.pending = HostedStatus.waiting
expected_hosted Availability.available _ = HostedStatus.unknown

abbrev is_passing : HostedOverall → Bool
is_passing HostedOverall.passing = true
is_passing _ = false

-- A required policy whose named checks are not all observed, or which rests on no check at all.
abbrev pub required_unproved : HostedValidationEvidence → Bool
required_unproved h =
    any (λ name. not (includes name h.observed_check_names)) h.required_check_names
    || (is_passing h.overall && length h.observed_check_names == 0)

hosted_status_agrees : PolicyMode → HostedStatus → HostedValidationEvidence → Bool
hosted_status_agrees PolicyMode.not_required HostedStatus.not_required h = true
hosted_status_agrees _ HostedStatus.not_required h = false
hosted_status_agrees PolicyMode.not_required status h = false
hosted_status_agrees PolicyMode.unconfigured status h = status == HostedStatus.unknown
hosted_status_agrees PolicyMode.required status h =
    if required_unproved h
    then status == HostedStatus.unknown
    else status == expected_hosted h.availability h.overall

abbrev names_only_if_required : PolicyMode → List String → Bool
names_only_if_required PolicyMode.required names = true
names_only_if_required _ names = length names == 0

abbrev null_or_pull_request : Option ℕ → Bool
null_or_pull_request none = true
null_or_pull_request (some n) = is_positive_safe_integer n

unfoldable pub is_hosted_evidence : HostedValidationEvidence → Bool
unfolding hosted_status_agrees
is_hosted_evidence h =
    not (is_blank h.observed_at)
    && null_or_pull_request h.pull_request_number
    && null_or_text h.policy_revision
    && all (λ name. not (is_blank name)) h.required_check_names
    && all (λ name. not (is_blank name)) h.observed_check_names
    && names_only_if_required h.policy_mode h.required_check_names
    && hosted_status_agrees h.policy_mode h.status h

-- The aggregate of the local and the hosted outcome.
abbrev pub expected_status : LocalStatus → HostedStatus → ValidationStatus
expected_status LocalStatus.failed hosted = ValidationStatus.failed
expected_status _ HostedStatus.failed = ValidationStatus.failed
expected_status LocalStatus.unknown _ = ValidationStatus.unknown
expected_status _ HostedStatus.unknown = ValidationStatus.unknown
expected_status _ HostedStatus.waiting = ValidationStatus.waiting
expected_status _ _ = ValidationStatus.passed

unfoldable pub is_validation_result_coherent : ValidationResult → Bool
is_validation_result_coherent r =
    not (is_blank r.head_sha)
    && is_local_evidence r.local
    && is_hosted_evidence r.hosted
    && r.status == expected_status r.local.status r.hosted.status
