-- ===== src/Tests/Evidence.antt =====
-- Evidence of a validation that passed.
use tachiko_conductor.Prelude.{true, some, [], ◌∷◌, ◌≡◌, refl, ◌↔◌}
use tachiko_conductor.Types.Names.{
  ValidationStatus, LocalStatus, HostedStatus, CommandOutcome, Availability, HostedOverall,
  PolicyMode,
}
use tachiko_conductor.Types.Evidence.{ValidationResult, HostedValidationEvidence}
use tachiko_conductor.HostedPolicy.{
  HostedCheckPolicy, HostedCheckPolicyObservation, evaluate_hosted_check_policy, or_empty,
}
use tachiko_conductor.HostedPolicy.Laws.{
  Passes, observation_of, evaluate-eq-passed, coherent-status-eq-evaluate,
}
use tachiko_conductor.Validation.{
  is_hosted_evidence, is_local_evidence, is_validation_result_coherent,
}
use tachiko_conductor.Validation.Coherence.{Proved, coherent_passed-Proved}
use tachiko_conductor.Prelude.{is_blank, trim}

abbrev hosted : HostedValidationEvidence
hosted = record {
  status = HostedStatus.passed;
  observed_at = "2026-01-01T00:00:00Z";
  pull_request_number = some 12;
  availability = Availability.available;
  overall = HostedOverall.passing;
  policy_revision = some "hosted-1";
  policy_mode = PolicyMode.required;
  required_check_names = "ci" ∷ [];
  observed_check_names = "lint" ∷ "ci" ∷ [];
}

abbrev result : ValidationResult
result = record {
  head_sha = "0123456789abcdef";
  status = ValidationStatus.passed;
  local = record {
    status = LocalStatus.passed;
    config_revision = some "local-1";
    commands =
        record {
          command_index = 0;
          executable = "npm";
          outcome = CommandOutcome.passed;
          exit_code = some 0;
          duration_ms = 1200;
        }
        ∷ [];
  };
  hosted = hosted;
}

computed : (is_validation_result_coherent result ≡ true) × (is_hosted_evidence hosted ≡ true)
unfolding is_validation_result_coherent is_hosted_evidence is_local_evidence is_blank trim
computed = (refl, refl)

coherent_passed-Proved_example : Proved result
coherent_passed-Proved_example = coherent_passed-Proved result computed.0 refl

coherent-status-eq-evaluate_example :
    HostedStatus.passed ≡ evaluate_hosted_check_policy (observation_of hosted)
coherent-status-eq-evaluate_example = coherent-status-eq-evaluate hosted refl computed.1

abbrev observation : HostedCheckPolicyObservation
observation = record {
  overall = some HostedOverall.passing;
  observed_check_names = some ("ci" ∷ []);
  policy = some (HostedCheckPolicy.required (some ("ci" ∷ "lint" ∷ [])));
}

evaluate-eq-passed_example :
    (evaluate_hosted_check_policy observation ≡ HostedStatus.passed)
    ↔ Passes observation.policy observation.overall (or_empty observation.observed_check_names)
evaluate-eq-passed_example = evaluate-eq-passed observation
