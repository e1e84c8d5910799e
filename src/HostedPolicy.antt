-- ===== src/HostedPolicy.antt =====
-- src/validation/hosted-policy.ts: the policy of a repository or run, applied to one observation of
-- the hosted checks at the exact pull request HEAD.
pub mod Laws
use tachiko_conductor.Prelude.{
  String, string_eq, nat_eq, Bool, not, ◌==◌, Option, none, some, List, [], any, length, includes,
  if◌then◌else◌,
}
use tachiko_conductor.Types.Names.{HostedStatus, HostedOverall}

pub data HostedCheckPolicy : Type 0 where
  not_required : HostedCheckPolicy
  required : (required_check_names : Option (List String)) → HostedCheckPolicy

pub record HostedCheckPolicyObservation : Type 0 where
  pub overall : Option HostedOverall
  pub observed_check_names : Option (List String)
  pub policy : Option HostedCheckPolicy

-- `names ?? []`
abbrev pub or_empty : Option (List String) → List String
or_empty none = []
or_empty (some names) = names

-- The checks after the named ones are known to be present.
by_overall : Option HostedOverall → List String → HostedStatus
by_overall (some HostedOverall.failing) observed = HostedStatus.failed
by_overall (some HostedOverall.pending) observed = HostedStatus.waiting
by_overall (some HostedOverall.passing) observed =
    if length observed == 0 then HostedStatus.unknown else HostedStatus.passed
by_overall _ observed = HostedStatus.unknown

by_policy : Option HostedCheckPolicy → Option HostedOverall → List String → HostedStatus
unfolding by_overall
by_policy none overall observed = HostedStatus.unknown
by_policy (some HostedCheckPolicy.not_required) overall observed = HostedStatus.not_required
by_policy (some (HostedCheckPolicy.required names)) overall observed =
    if any (λ name. not (includes name observed)) (or_empty names)
    then HostedStatus.unknown
    else by_overall overall observed

unfoldable pub evaluate_hosted_check_policy : HostedCheckPolicyObservation → HostedStatus
unfolding by_policy
evaluate_hosted_check_policy o = by_policy o.policy o.overall (or_empty o.observed_check_names)
