-- ===== src/Validation/Coherence.antt =====
-- What coherent validation evidence (src/domain/validation.ts) proves about its sources.
use tachiko_conductor.Prelude.{
  ◌<◌, string_eq, true, false, not, ◌≡◌, ◌⊎◌, inl, inr, length, all, any, includes, arith,
}
use tachiko_conductor.Types.Names.{
  ValidationStatus, LocalStatus, HostedStatus, Availability, HostedOverall, PolicyMode,
}
use tachiko_conductor.Types.Evidence.{HostedValidationEvidence, ValidationResult}
use tachiko_conductor.Validation.{
  command_passed, is_local_evidence, is_hosted_evidence, is_validation_result_coherent,
}

-- The hosted checks, where the policy requires them, were available, passed, and observed by name.
pub record HostedProved (h : HostedValidationEvidence) : Type 0 where
  pub mode : h.policy_mode ≡ PolicyMode.required
  pub was_available : h.availability ≡ Availability.available
  pub was_passing : h.overall ≡ HostedOverall.passing
  pub observed : 0 < length h.observed_check_names
  pub named :
      any (λ name. not (includes name h.observed_check_names)) h.required_check_names ≡ false

-- The local commands ran and each of them passed with exit code 0, and the hosted checks passed,
-- unless the policy does not require them.
pub record Proved (r : ValidationResult) : Type 0 where
  pub ran : 0 < length r.local.commands
  pub local_passed : all command_passed r.local.commands ≡ true
  pub hosted_passed : HostedProved r.hosted ⊎ (r.hosted.policy_mode ≡ PolicyMode.not_required)

hosted_passed→HostedProved :
    (h : HostedValidationEvidence)
    → is_hosted_evidence h ≡ true
    → h.status ≡ HostedStatus.passed
    → HostedProved h
unfolding is_hosted_evidence
hosted_passed→HostedProved h c s = ground arith

hosted_not_required→mode :
    (h : HostedValidationEvidence)
    → is_hosted_evidence h ≡ true
    → h.status ≡ HostedStatus.not_required
    → h.policy_mode ≡ PolicyMode.not_required
unfolding is_hosted_evidence
hosted_not_required→mode h c s = ground arith

local_passed→all :
    (r : ValidationResult)
    → is_local_evidence r.local ≡ true
    → r.local.status ≡ LocalStatus.passed
    → (0 < length r.local.commands) × (all command_passed r.local.commands ≡ true)
unfolding is_local_evidence
local_passed→all r c s = ground arith

-- The parts of a coherent passed result.
coherent_parts :
    (r : ValidationResult)
    → is_validation_result_coherent r ≡ true
    → r.status ≡ ValidationStatus.passed
    → (is_local_evidence r.local ≡ true)
      × (is_hosted_evidence r.hosted ≡ true)
      × (r.local.status ≡ LocalStatus.passed)
      × ((r.hosted.status ≡ HostedStatus.passed) ⊎ (r.hosted.status ≡ HostedStatus.not_required))
unfolding is_validation_result_coherent
coherent_parts r c s = ground arith

-- Evidence that is coherent and says that the validation passed proves that local commands ran and
-- all passed with exit code 0, and that the hosted checks were available, passing and complete,
-- unless the policy does not require them.
pub coherent_passed-Proved :
    (r : ValidationResult)
    → is_validation_result_coherent r ≡ true
    → r.status ≡ ValidationStatus.passed
    → Proved r
coherent_passed-Proved r c s =
    let (local, hosted, status, outcome) = coherent_parts r c s in
    let (ran, all_passed) = local_passed→all r local status in
    record {
      ran = ran;
      local_passed = all_passed;
      hosted_passed = elim outcome [
        | inl passed ↦ inl (hosted_passed→HostedProved r.hosted hosted passed)
        | inr skipped ↦ inr (hosted_not_required→mode r.hosted hosted skipped)
      ];
    }
