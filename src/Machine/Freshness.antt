-- ===== src/Machine/Freshness.antt =====
-- src/domain/state-machine.ts: freshness of reviews and validations.
use tachiko_conductor.Prelude.{
  String, string_eq, nat_eq, option_eq, Bool, true, false, not, ◌&&◌, ◌==◌, Option, none, some, all,
  is_blank,
}
use tachiko_conductor.Types.Names.{ReviewVerdict, Severity, ValidationStatus, status_eq, PolicyMode}
use tachiko_conductor.Types.Evidence.{
  ImplementationPullRequestIdentity, ReviewFinding, ReviewResult, ValidationResult,
}
use tachiko_conductor.Types.Run.{Run}

-- `isUsableSha`
abbrev pub is_usable : Option String → Bool
is_usable none = false
is_usable (some s) = not (is_blank s)

unfoldable pub is_review_bound_to_head : Run → ReviewResult → Bool
is_review_bound_to_head run review = is_usable run.head_sha && run.head_sha == some review.head_sha

abbrev pub is_not_blocking : ReviewFinding → Bool
is_not_blocking f = not_blocking f.severity
  where
    not_blocking : Severity → Bool
    not_blocking Severity.blocking = false
    not_blocking Severity.non_blocking = true

abbrev consistent_with : ReviewVerdict → Bool → Bool
consistent_with ReviewVerdict.approve no_blocking = no_blocking
consistent_with ReviewVerdict.request_changes no_blocking = true

unfoldable pub is_review_internally_consistent : ReviewResult → Bool
is_review_internally_consistent r = consistent_with r.verdict (all is_not_blocking r.findings)

unfoldable pub is_review_fresh : Run → Bool
unfolding is_review_bound_to_head
is_review_fresh run = fresh run.review_result
  where
    fresh : Option ReviewResult → Bool
    fresh none = false
    fresh (some r) = is_review_bound_to_head run r

-- A validation adapter is absent, revisioned, or anonymous.
pub data LocalValidationPolicyIdentity : Type 0 where
  absent invalid : LocalValidationPolicyIdentity
  configured : (revision : String) → LocalValidationPolicyIdentity

pub data HostedValidationPolicyIdentity : Type 0 where
  absent invalid : HostedValidationPolicyIdentity
  configured : (requires : Bool) (revision : String) → HostedValidationPolicyIdentity

pub record ActiveValidationConfiguration : Type 0 where
  pub local : LocalValidationPolicyIdentity
  pub hosted : HostedValidationPolicyIdentity

local_identity : Option String → LocalValidationPolicyIdentity
local_identity none = LocalValidationPolicyIdentity.invalid
local_identity (some revision) = named (is_blank revision)
  where
    named : Bool → LocalValidationPolicyIdentity
    named true = LocalValidationPolicyIdentity.invalid
    named false = LocalValidationPolicyIdentity.configured revision

unfoldable pub active_local_policy_identity :
    Option String → (present : Bool) → LocalValidationPolicyIdentity
unfolding local_identity
active_local_policy_identity revision false = LocalValidationPolicyIdentity.absent
active_local_policy_identity revision true = local_identity revision

unfoldable pub validation_local_policy_identity : Option String → LocalValidationPolicyIdentity
unfolding local_identity
validation_local_policy_identity revision = local_identity revision

hosted_identity : Option String → (requires : Bool) → HostedValidationPolicyIdentity
hosted_identity none requires = HostedValidationPolicyIdentity.invalid
hosted_identity (some revision) requires = named (is_blank revision)
  where
    named : Bool → HostedValidationPolicyIdentity
    named true = HostedValidationPolicyIdentity.invalid
    named false = HostedValidationPolicyIdentity.configured requires revision

unfoldable pub validation_hosted_policy_identity :
    Option String → PolicyMode → HostedValidationPolicyIdentity
unfolding hosted_identity
validation_hosted_policy_identity revision PolicyMode.unconfigured =
    HostedValidationPolicyIdentity.absent
validation_hosted_policy_identity revision PolicyMode.required = hosted_identity revision true
validation_hosted_policy_identity revision PolicyMode.not_required = hosted_identity revision false

-- `none` is a policy that is not given.
unfoldable pub active_hosted_policy_identity :
    Option String → Option PolicyMode → HostedValidationPolicyIdentity
unfolding validation_hosted_policy_identity
active_hosted_policy_identity revision none = HostedValidationPolicyIdentity.absent
active_hosted_policy_identity revision (some mode) = validation_hosted_policy_identity revision mode

same_local : LocalValidationPolicyIdentity → LocalValidationPolicyIdentity → Bool
same_local (LocalValidationPolicyIdentity.configured r)
      (LocalValidationPolicyIdentity.configured s) =
    r == s
same_local _ _ = false

abbrev same_mode : Bool → Bool → Bool
same_mode true b = b
same_mode false b = not b

same_hosted : HostedValidationPolicyIdentity → HostedValidationPolicyIdentity → Bool
same_hosted (HostedValidationPolicyIdentity.configured m r)
      (HostedValidationPolicyIdentity.configured n s) =
    same_mode m n && r == s
same_hosted _ _ = false

unfoldable pub validation_evidence_matches_active :
    ValidationResult → ActiveValidationConfiguration → Bool
unfolding same_local same_hosted validation_local_policy_identity validation_hosted_policy_identity
validation_evidence_matches_active r active =
    same_local (validation_local_policy_identity r.local.config_revision) active.local
    && same_hosted (validation_hosted_policy_identity r.hosted.policy_revision r.hosted.policy_mode)
        active.hosted

-- The parts of a run that the evidence has to name.
unfoldable pub fresh_for :
    Option ValidationResult
    → Option String
    → Option ImplementationPullRequestIdentity
    → ActiveValidationConfiguration
    → Bool
unfolding validation_evidence_matches_active
fresh_for (some v) head (some pr) active =
    is_usable head
    && some pr.head_sha == head
    && some v.head_sha == head
    && v.hosted.pull_request_number == some pr.number
    && v.status == ValidationStatus.passed
    && validation_evidence_matches_active v active
fresh_for _ _ _ active = false

unfoldable pub is_validation_fresh : Run → ActiveValidationConfiguration → Bool
unfolding fresh_for
is_validation_fresh run active =
    fresh_for run.validation_result run.head_sha run.pull_request active
