-- ===== src/HostedPolicy/Laws.antt =====
-- What the policy of src/validation/hosted-policy.ts lets through, and how it agrees with the
-- coherence test of src/domain/validation.ts.
use tachiko_conductor.Prelude.{
  String, string_eq, true, false, not, ◌≡◌, refl, ◌≢◌, ◌↔◌, Option, none, some, List, [], any,
  includes, arith,
}
use tachiko_conductor.Types.Names.{HostedStatus, HostedOverall, Availability, PolicyMode}
use tachiko_conductor.Types.Evidence.{HostedValidationEvidence}
use tachiko_conductor.Validation.{is_hosted_evidence}
use tachiko_conductor.HostedPolicy.{
  HostedCheckPolicy, HostedCheckPolicyObservation, or_empty, by_policy,
  evaluate_hosted_check_policy,
}

-- What makes an observation pass.
abbrev pub Passes : Option HostedCheckPolicy → Option HostedOverall → List String → Type 0
Passes policy overall observed =
    (names : Option (List String)) × (policy ≡ some (HostedCheckPolicy.required names))
    × (overall ≡ some HostedOverall.passing)
    × (observed ≢ [])
    × (any (λ name. not (includes name observed)) (or_empty names) ≡ false)

passed→Passes :
    (p : Option HostedCheckPolicy) (overall : Option HostedOverall) (observed : List String)
    → by_policy p overall observed ≡ HostedStatus.passed
    → Passes p overall observed
unfolding by_policy
passed→Passes (some (HostedCheckPolicy.required names)) overall observed h =
    (names, refl, ground arith, ground arith, ground arith)
passed→Passes (some HostedCheckPolicy.not_required) overall observed h = cc
passed→Passes none overall observed h = cc

-- An observation passes exactly when a required policy is there, the overall state is passing, some
-- check was observed, and every check that the policy names was observed.
pub evaluate-eq-passed :
    (o : HostedCheckPolicyObservation)
    → (evaluate_hosted_check_policy o ≡ HostedStatus.passed)
      ↔ Passes o.policy o.overall (or_empty o.observed_check_names)
unfolding evaluate_hosted_check_policy
evaluate-eq-passed o = (
  passed→Passes o.policy o.overall (or_empty o.observed_check_names),
  λ (n, e, f, g, h). ground arith,
)

-- The policy under which a piece of hosted evidence was recorded.
abbrev pub policy_of : PolicyMode → List String → Option HostedCheckPolicy
policy_of PolicyMode.required names = some (HostedCheckPolicy.required (some names))
policy_of PolicyMode.not_required names = some HostedCheckPolicy.not_required
policy_of PolicyMode.unconfigured names = none

abbrev pub observation_of : HostedValidationEvidence → HostedCheckPolicyObservation
observation_of h = record {
  overall = some h.overall;
  observed_check_names = some h.observed_check_names;
  policy = policy_of h.policy_mode h.required_check_names;
}

-- Evidence of available checks that passes the coherence test has the status that the policy
-- evaluates to on the same observation.
pub coherent-status-eq-evaluate :
    (h : HostedValidationEvidence)
    → h.availability ≡ Availability.available
    → is_hosted_evidence h ≡ true
    → h.status ≡ evaluate_hosted_check_policy (observation_of h)
unfolding evaluate_hosted_check_policy is_hosted_evidence
coherent-status-eq-evaluate h a c = ground arith
