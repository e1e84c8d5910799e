-- ===== src/Machine/Binding.antt =====
-- The evidence that a run keeps is about its current HEAD: reviews, validations and the accepted pull
-- request name exactly that commit, after any transition.
use tachiko_conductor.Prelude.{
  String, string_eq, option_eq, option_beq_iff, true, false, Option, none, some, ◌≡◌, refl, subst,
  ok, arith, if◌then◌else◌, is_blank, Bool-cases, Option-cases, ◌⊎◌, inl, inr,
}
use tachiko_conductor.Types.Names.{TransitionType}
use tachiko_conductor.Types.Evidence.{
  ImplementationPullRequestIdentity, ReviewResult, ValidationResult,
}
use tachiko_conductor.Types.Run.{TransitionInput, Run}
use tachiko_conductor.Native.{Native}
use tachiko_conductor.Repair.Identity.{or_else}
use tachiko_conductor.Machine.Table.{is_present, requires_review_result, updates_head}
use tachiko_conductor.Machine.Freshness.{ActiveValidationConfiguration, is_review_bound_to_head}
use tachiko_conductor.Machine.Decisions.{
  is_authorized_human_head_sync, is_authorized_legacy_pull_request_recovery,
}
use tachiko_conductor.Machine.Evidence.{
  pull_request_unexpected, pull_request_missing, pull_request_invalid, assert_expected,
  assert_validation, assert_pull_request, assert_review, expected_head, accepts_validation_result,
}
use tachiko_conductor.Machine.Apply.{
  accepted_head, is_head, without_stale, strip_review, apply_transition,
}
use tachiko_conductor.Machine.Accepted.{apply_transition-Accepted, Accepted-Fields}

is_blank_empty : is_blank "" ≡ true
unfolding is_blank
is_blank_empty = refl

-- What is kept names the HEAD, if anything is kept.
abbrev pub ReviewAt : Option ReviewResult → Option String → Type 0
ReviewAt none head = Unit
ReviewAt (some r) head = head ≡ some r.head_sha

abbrev pub ValidationAt : Option ValidationResult → Option String → Type 0
ValidationAt none head = Unit
ValidationAt (some v) head = head ≡ some v.head_sha

abbrev pub PullRequestAt : Option ImplementationPullRequestIdentity → Option String → Type 0
PullRequestAt none head = Unit
PullRequestAt (some pr) head = head ≡ some pr.head_sha

pub record IsBound (run : Run) : Type 0 where
  pub review : ReviewAt run.review_result run.head_sha
  pub validation : ValidationAt run.validation_result run.head_sha
  pub pull_request : PullRequestAt run.pull_request run.head_sha

sync-type :
    (run : Run) (input : TransitionInput)
    → is_authorized_human_head_sync run input ≡ true
    → input.type ≡ TransitionType.human_resolved
unfolding is_authorized_human_head_sync
sync-type run input h = ground arith

-- Only an agent's outcome or an authorized synchronization reports a HEAD that counts.
accepted_head-none :
    (run : Run) (input : TransitionInput)
    → updates_head input.type ≡ false
    → is_authorized_human_head_sync run input ≡ false
    → accepted_head run input ≡ none
unfolding accepted_head
accepted_head-none run input u s = ground arith

-- A transition that takes a review, or a validation, reports no HEAD.
review-accepted_head :
    (run : Run) (input : TransitionInput)
    → requires_review_result input.type ≡ true
    → accepted_head run input ≡ none
review-accepted_head run input h = elim (Bool-cases (is_authorized_human_head_sync run input)) [
  | inl sync ↦ absurd (ground (arith, sync-type run input))
  | inr other ↦ accepted_head-none run input (ground arith) other
]

validation-accepted_head :
    (run : Run) (input : TransitionInput)
    → accepts_validation_result run.state input.type ≡ true
    → accepted_head run input ≡ none
validation-accepted_head run input h = elim (Bool-cases (is_authorized_human_head_sync run input)) [
  | inl sync ↦ absurd (ground (arith, sync-type run input))
  | inr other ↦ accepted_head-none run input (ground arith) other
]

abbrev next_head : Option String → Option String → Option String
next_head head old = if is_head head then head else old

-- What the payload's guards say of each piece of evidence.
review_guard :
    (run : Run) (input : TransitionInput) (active : Option ActiveValidationConfiguration)
    (r : ReviewResult)
    → assert_expected run input ≡ ok tt
    → assert_review run input active ≡ ok tt
    → input.review_result ≡ some r
    → (requires_review_result input.type ≡ true) × (is_review_bound_to_head run r ≡ true)
unfolding assert_expected assert_review
review_guard run input active r e h i = ground arith

bound-head :
    (run : Run) (r : ReviewResult)
    → is_review_bound_to_head run r ≡ true
    → run.head_sha ≡ some r.head_sha
unfolding is_review_bound_to_head
bound-head run r h = ground (arith, option_beq_iff run.head_sha (some r.head_sha))

validation_guard :
    (run : Run) (input : TransitionInput) (v : ValidationResult)
    → assert_expected run input ≡ ok tt
    → assert_validation run input ≡ ok tt
    → input.validation_result ≡ some v
    → (accepts_validation_result run.state input.type ≡ true) × (run.head_sha ≡ some v.head_sha)
unfolding assert_expected assert_validation
validation_guard run input v e h i = ground (arith, option_beq_iff (some v.head_sha) run.head_sha)

-- The evidence that is kept: it is dropped where the HEAD changes.
kept-ReviewAt :
    (run : Run) (input : TransitionInput)
    → ReviewAt run.review_result run.head_sha
    → ReviewAt
        (without_stale run input).review_result
        (next_head (accepted_head run input) run.head_sha)
unfolding without_stale
kept-ReviewAt run input b = ground (arith, option_beq_iff (accepted_head run input) run.head_sha)

kept-ValidationAt :
    (run : Run) (input : TransitionInput)
    → ValidationAt run.validation_result run.head_sha
    → ValidationAt
        (without_stale run input).validation_result
        (next_head (accepted_head run input) run.head_sha)
unfolding without_stale
kept-ValidationAt run input b =
    ground (arith, option_beq_iff (accepted_head run input) run.head_sha)

next-ReviewAt :
    (run : Run) (input : TransitionInput) (active : Option ActiveValidationConfiguration)
    → assert_expected run input ≡ ok tt
    → assert_review run input active ≡ ok tt
    → ReviewAt run.review_result run.head_sha
    → ReviewAt
        (or_else (strip_review input.review_result) (without_stale run input).review_result)
        (next_head (accepted_head run input) run.head_sha)
next-ReviewAt run input active e h b = elim (Option-cases input.review_result) [
  | inl absent ↦ simp absent (kept-ReviewAt run input b)
  | inr (r, given) ↦
      let (type, bound) = review_guard run input active r e h given in
      simp (given, review-accepted_head run input type) (bound-head run r bound)
]

next-ValidationAt :
    (run : Run) (input : TransitionInput)
    → assert_expected run input ≡ ok tt
    → assert_validation run input ≡ ok tt
    → ValidationAt run.validation_result run.head_sha
    → ValidationAt
        (or_else input.validation_result (without_stale run input).validation_result)
        (next_head (accepted_head run input) run.head_sha)
next-ValidationAt run input e h b = elim (Option-cases input.validation_result) [
  | inl absent ↦ simp absent (kept-ValidationAt run input b)
  | inr (v, given) ↦
      let (accepts, bound) = validation_guard run input v e h given in
      simp (given, validation-accepted_head run input accepts) bound
]

-- A pull request that comes with the transition names the HEAD that the transition leaves.
pull_request-parts :
    (run : Run) (input : TransitionInput)
    → assert_pull_request run input ≡ ok tt
    → (pull_request_unexpected run input ≡ false) × (pull_request_missing run input ≡ false)
unfolding assert_pull_request
pull_request-parts run input h = ground arith

pull_request-valid :
    (run : Run) (input : TransitionInput) (pr : ImplementationPullRequestIdentity)
    → assert_pull_request run input ≡ ok tt
    → input.pull_request ≡ some pr
    → pull_request_invalid run input pr ≡ false
unfolding assert_pull_request
pull_request-valid run input pr h i = ground arith

pull_request-expected :
    (run : Run) (input : TransitionInput) (pr : ImplementationPullRequestIdentity)
    → pull_request_invalid run input pr ≡ false
    → (expected_head run input ≡ some pr.head_sha) × (is_blank pr.head_sha ≡ false)
pull_request-expected run input pr h =
    ground (arith, option_beq_iff (some pr.head_sha) (expected_head run input))

pull_request-carrier :
    (run : Run) (input : TransitionInput) (pr : ImplementationPullRequestIdentity)
    → pull_request_unexpected run input ≡ false
    → input.pull_request ≡ some pr
    → (input.type ≡ TransitionType.agent_succeeded)
      ⊎ (is_present input.validation_result ≡ true)
      ⊎ (is_authorized_human_head_sync run input ≡ true)
      ⊎ (is_authorized_legacy_pull_request_recovery run input ≡ true)
unfolding pull_request_unexpected
pull_request-carrier run input pr h i = ground arith

legacy-type :
    (run : Run) (input : TransitionInput)
    → is_authorized_legacy_pull_request_recovery run input ≡ true
    → input.type ≡ TransitionType.human_resolved
unfolding is_authorized_legacy_pull_request_recovery
legacy-type run input h = ground arith

-- A pull request that is kept keeps its HEAD.
owned_head :
    (run : Run) (input : TransitionInput) (pr : ImplementationPullRequestIdentity)
    → pull_request_missing run input ≡ false
    → input.pull_request ≡ none
    → run.pull_request ≡ some pr
    → accepted_head run input ≡ none
unfolding pull_request_missing accepted_head
owned_head run input pr h i o = ground arith

-- A payload that carries a validation stands on a transition that reports no HEAD.
validation-updates_head :
    (run : Run) (input : TransitionInput)
    → is_present input.validation_result ≡ true
    → assert_expected run input ≡ ok tt
    → updates_head input.type ≡ false
unfolding assert_expected
validation-updates_head run input v e =
    let accepts : accepts_validation_result run.state input.type ≡ true = ground arith in
    ground arith

quiet-next_head :
    (run : Run) (input : TransitionInput) (sha : String)
    → updates_head input.type ≡ false
    → is_authorized_human_head_sync run input ≡ false
    → expected_head run input ≡ some sha
    → next_head (accepted_head run input) run.head_sha ≡ some sha
unfolding expected_head accepted_head
quiet-next_head run input sha u s h = ground arith

nonempty-is_head : (sha : String) → is_blank sha ≡ false → is_head (some sha) ≡ true
nonempty-is_head sha n = ground (arith, is_blank_empty, string_eq.beq_iff sha "")

agent-next_head :
    (run : Run) (input : TransitionInput) (sha : String)
    → input.type ≡ TransitionType.agent_succeeded
    → is_blank sha ≡ false
    → expected_head run input ≡ some sha
    → next_head (accepted_head run input) run.head_sha ≡ some sha
unfolding expected_head accepted_head
agent-next_head run input sha t n h = ground (arith, nonempty-is_head sha)

sync-next_head :
    (run : Run) (input : TransitionInput) (sha : String)
    → is_authorized_human_head_sync run input ≡ true
    → is_blank sha ≡ false
    → expected_head run input ≡ some sha
    → next_head (accepted_head run input) run.head_sha ≡ some sha
unfolding expected_head accepted_head
sync-next_head run input sha s n h = ground (arith, nonempty-is_head sha, sync-type run input s)

still-next_head :
    (run : Run) (input : TransitionInput) (sha : String)
    → updates_head input.type ≡ false
    → is_blank sha ≡ false
    → expected_head run input ≡ some sha
    → next_head (accepted_head run input) run.head_sha ≡ some sha
still-next_head run input sha u n h = elim (Bool-cases (is_authorized_human_head_sync run input)) [
  | inl sync ↦ sync-next_head run input sha sync n h
  | inr other ↦ quiet-next_head run input sha u other h
]

-- The HEAD that a given pull request has to name is the one that the transition leaves.
expected-next_head :
    (run : Run) (input : TransitionInput) (sha : String)
    → ((input.type ≡ TransitionType.agent_succeeded)
        ⊎ (is_present input.validation_result ≡ true)
        ⊎ (is_authorized_human_head_sync run input ≡ true)
        ⊎ (is_authorized_legacy_pull_request_recovery run input ≡ true))
    → assert_expected run input ≡ ok tt
    → is_blank sha ≡ false
    → expected_head run input ≡ some sha
    → next_head (accepted_head run input) run.head_sha ≡ some sha
expected-next_head run input sha t e n h = elim t [
  | inl agent ↦ agent-next_head run input sha agent n h
  | inr (inl validation) ↦
      still-next_head run input sha (validation-updates_head run input validation e) n h
  | inr (inr (inl sync)) ↦ sync-next_head run input sha sync n h
  | inr (inr (inr legacy)) ↦
      still-next_head run input sha (ground (arith, legacy-type run input legacy)) n h
]

next-PullRequestAt :
    (run : Run) (input : TransitionInput)
    → assert_expected run input ≡ ok tt
    → assert_pull_request run input ≡ ok tt
    → PullRequestAt run.pull_request run.head_sha
    → PullRequestAt
        (or_else input.pull_request run.pull_request)
        (next_head (accepted_head run input) run.head_sha)
next-PullRequestAt run input e h b = elim (Option-cases input.pull_request) [
  | inl absent ↦ elim (Option-cases run.pull_request) [
    | inl none_owned ↦ simp (absent, none_owned) tt
    | inr (pr, owned) ↦
        simp
          (absent, owned, owned_head run input pr (pull_request-parts run input h).1 absent owned)
          (subst (λ (o : Option ImplementationPullRequestIdentity). PullRequestAt o run.head_sha)
            owned b)
  ]
  | inr (pr, given) ↦
      let (expected, named) =
        pull_request-expected run input pr (pull_request-valid run input pr h given) in
      simp given (
        expected-next_head run input pr.head_sha
          (pull_request-carrier run input pr (pull_request-parts run input h).0 given) e named
          expected)
]

-- Every accepted transition keeps the evidence bound: a review, a validation and an accepted pull
-- request that the new snapshot holds all name its exact HEAD.
pub apply-IsBound :
    (native : Native) (run : Run) (input : TransitionInput) (now : String)
    (active : Option ActiveValidationConfiguration) {next : Run}
    → IsBound run
    → apply_transition native run input now active ≡ ok next
    → IsBound next
apply-IsBound native run input now active b h =
    let a = apply_transition-Accepted native run input now active h in
    let f = Accepted-Fields native run input now active a in
    let p = a.payload in
    record {
      review =
          simp (f.review_result, f.head_sha)
            (next-ReviewAt run input active p.expected p.review b.review);
      validation =
          simp (f.validation_result, f.head_sha)
            (next-ValidationAt run input p.expected p.validation b.validation);
      pull_request =
          simp (f.pull_request, f.head_sha)
            (next-PullRequestAt run input p.expected p.pull_request b.pull_request);
    }
