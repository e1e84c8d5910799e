-- ===== src/Machine/Approval.antt =====
-- What an accepted review rests on.
use tachiko_conductor.Prelude.{
  String, true, option_eq, nat_eq, option_beq_iff, string_eq, Option, none, some, ◌≡◌, refl, ok,
  arith, all,
}
use tachiko_conductor.Types.Names.{TransitionType, ReviewVerdict, ValidationStatus}
use tachiko_conductor.Types.Evidence.{
  ImplementationPullRequestIdentity, ReviewResult, ValidationResult,
}
use tachiko_conductor.Types.Run.{TransitionInput, Run}
use tachiko_conductor.Native.{Native}
use tachiko_conductor.Validation.{is_validation_result_coherent}
use tachiko_conductor.Validation.Coherence.{Proved, coherent_passed-Proved}
use tachiko_conductor.Machine.Freshness.{
  ActiveValidationConfiguration, is_not_blocking, is_review_internally_consistent,
  is_review_bound_to_head, is_validation_fresh, validation_evidence_matches_active, fresh_for,
}
use tachiko_conductor.Machine.Table.{is_present}
use tachiko_conductor.Machine.Evidence.{assert_review, evidence_admits}
use tachiko_conductor.Machine.Payload.{assert_required}
use tachiko_conductor.Machine.Apply.{apply_transition}
use tachiko_conductor.Machine.Accepted.{apply_transition-Accepted}

-- Passed and coherent validation of the accepted pull request at the exact HEAD, under the policy
-- that is active now.
pub record Validated (run : Run) (active : ActiveValidationConfiguration) : Type 0 where
  pub result : ValidationResult
  pub pull_request : ImplementationPullRequestIdentity
  pub kept : run.validation_result ≡ some result
  pub owned : run.pull_request ≡ some pull_request
  pub at_head : run.head_sha ≡ some result.head_sha
  pub owned_at_head : run.head_sha ≡ some pull_request.head_sha
  pub numbered : result.hosted.pull_request_number ≡ some pull_request.number
  pub coherent : is_validation_result_coherent result ≡ true
  pub passed : result.status ≡ ValidationStatus.passed
  pub current : validation_evidence_matches_active result active ≡ true
  pub proved : Proved result

-- The tests behind it, over the three fields of the run.
tests-Validated :
    (run : Run) (active : ActiveValidationConfiguration) (v : Option ValidationResult)
    (head : Option String) (pr : Option ImplementationPullRequestIdentity)
    → run.validation_result ≡ v
    → run.head_sha ≡ head
    → run.pull_request ≡ pr
    → evidence_admits pr head v ≡ true
    → fresh_for v head pr active ≡ true
    → Validated run active
unfolding evidence_admits fresh_for
tests-Validated run active (some v) (some head) (some pr) ev eh ep a f =
    let at_head : head ≡ v.head_sha = ground (arith, string_eq.beq_iff v.head_sha head) in
    let owned_at : head ≡ pr.head_sha = ground (arith, string_eq.beq_iff pr.head_sha head) in
    let coherent : is_validation_result_coherent v ≡ true = ground arith in
    let passed : v.status ≡ ValidationStatus.passed = ground arith in
    record {
      result = v;
      pull_request = pr;
      kept = ev;
      owned = ep;
      at_head = ground arith;
      owned_at_head = ground arith;
      numbered = ground (arith, option_beq_iff v.hosted.pull_request_number (some pr.number));
      coherent = coherent;
      passed = passed;
      current = ground arith;
      proved = coherent_passed-Proved v coherent passed;
    }
tests-Validated run active none head pr ev eh ep a f = cc
tests-Validated run active (some v) none pr ev eh ep a f = ground arith
tests-Validated run active (some v) (some head) none ev eh ep a f = cc

-- An approval of the exact HEAD that leaves no blocking finding.
pub record Approved (run : Run) (input : TransitionInput) : Type 0 where
  pub review : ReviewResult
  pub given : input.review_result ≡ some review
  pub approves : review.verdict ≡ ReviewVerdict.approve
  pub unblocked : all is_not_blocking review.findings ≡ true
  pub at_head : run.head_sha ≡ some review.head_sha

approval-Approved :
    (run : Run) (input : TransitionInput) (active : Option ActiveValidationConfiguration)
    (review : Option ReviewResult)
    → input.type ≡ TransitionType.review_approved
    → input.review_result ≡ review
    → is_present review ≡ true
    → assert_review run input active ≡ ok tt
    → Approved run input
unfolding assert_review is_review_internally_consistent is_review_bound_to_head
approval-Approved run input active none t g p h = cc
approval-Approved run input active (some r) t g p h = record {
  review = r;
  given = g;
  approves = ground arith;
  unblocked = ground arith;
  at_head = ground (arith, option_beq_iff run.head_sha (some r.head_sha));
}

review-Validated :
    (run : Run) (input : TransitionInput) (active : ActiveValidationConfiguration)
    → input.type ≡ TransitionType.review_approved
    → assert_review run input (some active) ≡ ok tt
    → (evidence_admits run.pull_request run.head_sha run.validation_result ≡ true)
      × (fresh_for run.validation_result run.head_sha run.pull_request active ≡ true)
unfolding assert_review is_validation_fresh
review-Validated run input active t h = ground arith

review-active :
    (run : Run) (input : TransitionInput)
    → input.type ≡ TransitionType.review_approved
    → assert_review run input none ≡ ok tt
    → ⊥
unfolding assert_review
review-active run input t h = ground arith

required-present :
    (run : Run) (input : TransitionInput)
    → input.type ≡ TransitionType.review_approved
    → assert_required run input ≡ ok tt
    → is_present input.review_result ≡ true
unfolding assert_required
required-present run input t h = ground arith

-- The approval, and the validation that it rests on.
pub record Authorized (run : Run) (input : TransitionInput)
    (active : Option ActiveValidationConfiguration) : Type 0 where
  pub approval : Approved run input
  pub policy : ActiveValidationConfiguration
  pub given_policy : active ≡ some policy
  pub validated : Validated run policy

-- A run passes review only with an approval of its exact HEAD that has no blocking finding, and only
-- on coherent evidence, current under the active policy, that the accepted pull request at that HEAD
-- passed validation.
pub approved-Authorized :
    (native : Native) (run : Run) (input : TransitionInput) (now : String)
    (active : Option ActiveValidationConfiguration) {next : Run}
    → input.type ≡ TransitionType.review_approved
    → apply_transition native run input now active ≡ ok next
    → Authorized run input active
approved-Authorized native run input now none t h =
    let a = apply_transition-Accepted native run input now none h in
    absurd (review-active run input t a.payload.review)
approved-Authorized native run input now (some active) t h =
    let a = apply_transition-Accepted native run input now (some active) h in
    let (admits, fresh) = review-Validated run input active t a.payload.review in
    record {
      approval =
          approval-Approved run input (some active) input.review_result t refl
            (required-present run input t a.payload.required) a.payload.review;
      policy = active;
      given_policy = refl;
      validated =
          tests-Validated run active run.validation_result run.head_sha run.pull_request refl refl
            refl admits fresh;
    }
