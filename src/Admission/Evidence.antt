-- ===== src/Admission/Evidence.antt =====
-- src/mission-admission/registry.ts: canonical evidence, and when two pieces of evidence claim the
-- same work.
use Prim.Native.String.{◌++◌ as ◌<>◌}
use text.Mathlib.Text.{starts_with}
use tachiko_conductor.Prelude.{
  String, string_eq, nat_eq, option_eq, bool_eq, Bool, true, false, not, ◌&&◌, ◌||◌, ◌==◌, Option,
  none, some, List, [], ◌∷◌, ◌++◌, any, Result, ok, err, ◌>>=◌, ◌>>◌, reject, is_blank, trim,
  if◌then◌else◌, Eq,
}
use tachiko_conductor.Admission.Types.{
  MissionEvidence, MissionAdmissionRole, AdmissionStateError, role_eq,
}
use tachiko_conductor.Admission.Platform.{
  Platform, DigestPart, non_empty, safe_positive, canonical_repository, canonical_path,
}

abbrev pub Checked : Type 0 → Type 0
Checked A = Result AdmissionStateError A

-- Whether a test fails on a value that is present.
abbrev pub fails {ℓ} : {A : Type ℓ} → (A → Bool) → Option A → Bool
fails test none = false
fails test (some value) = not (test value)

abbrev pub is_some {ℓ} : {A : Type ℓ} → Option A → Bool
is_some none = false
is_some (some value) = true

unfoldable pub or_throw : {A : Type 0} → AdmissionStateError → Option A → Checked A
or_throw error none = err error
or_throw error (some value) = ok value

trimmed : Option String → Option String
unfolding trim
trimmed none = none
trimmed (some value) = some (trim value)

-- `production` and `mutation`
abbrev pub production : MissionAdmissionRole → Bool
production MissionAdmissionRole.production_captain = true
production MissionAdmissionRole.delegated_mutation_writer = true
production _ = false

abbrev pub mutation : MissionAdmissionRole → Bool
mutation MissionAdmissionRole.production_captain = true
mutation MissionAdmissionRole.delegated_mutation_writer = true
mutation _ = false

names_work : MissionEvidence → Bool
names_work e =
    is_some e.issue
    || is_some e.pull_request
    || is_some e.run
    || is_some e.claim
    || is_some e.workspace
    || is_some e.state_surface
    || e.repository_scope

-- `sameEvidence`: the same properties with the same values.
abbrev pub same_evidence : MissionEvidence → MissionEvidence → Bool
same_evidence left right =
    (left.repository == right.repository)
    && (left.issue == right.issue)
    && (left.pull_request == right.pull_request)
    && (left.run == right.run)
    && (left.claim == right.claim)
    && (left.workspace == right.workspace)
    && (left.state_surface == right.state_surface)
    && (left.repository_scope == right.repository_scope)

same_as : MissionEvidence → Checked MissionEvidence → Bool
same_as value (ok canonical) = same_evidence value canonical
same_as value (err error) = false

-- The merge of one property: what is there, unless both are and differ.
unfoldable pub merge_item : {A : Type 0} ⦃eq : Eq A⦄ → Option A → Option A → Checked (Option A)
merge_item none next = ok next
merge_item (some old) none = ok (some old)
merge_item (some old) (some next) =
    if old == next then ok (some next) else err AdmissionStateError.merge_conflict

-- `mergeEvidence`
unfoldable pub merge_evidence : MissionEvidence → MissionEvidence → Checked MissionEvidence
unfolding merge_item
merge_evidence old next =
    reject (not (old.repository == next.repository)) AdmissionStateError.merge_conflict
    >> (merge_item old.issue next.issue >>= λ issue.
        merge_item old.pull_request next.pull_request >>= λ pull_request.
        merge_item old.run next.run >>= λ run. merge_item old.claim next.claim >>= λ claim.
        merge_item old.workspace next.workspace >>= λ workspace.
        merge_item old.state_surface next.state_surface >>= λ state_surface. ok (record {
          repository = old.repository;
          issue = issue;
          pull_request = pull_request;
          run = run;
          claim = claim;
          workspace = workspace;
          state_surface = state_surface;
          repository_scope = old.repository_scope || next.repository_scope;
        }))

-- `evidenceIncludes`
unfoldable pub evidence_includes : (evidence required : MissionEvidence) → Bool
unfolding same_as
evidence_includes evidence required = same_as evidence (merge_evidence required evidence)

-- The workspace and the state surface, as far as they are known.
unfoldable pub surfaces : MissionEvidence → List String
surfaces e = listed e.workspace ++ listed e.state_surface
  where
    listed : Option String → List String
    listed none = []
    listed (some path) = path ∷ []

-- Two properties that are known and equal.
unfoldable pub same_item {ℓ} : {A : Type ℓ} ⦃eq : Eq A⦄ → Option A → Option A → Bool
same_item none b = false
same_item (some a) none = false
same_item (some a) (some b) = a == b

when_present {ℓ} : {A : Type ℓ} → (A → List DigestPart) → Option A → Option (List DigestPart)
when_present parts none = none
when_present parts (some value) = some (parts value)

-- What an identity of a mission is taken from: the first property of these that is known.
anchor_parts : MissionEvidence → Option (List DigestPart)
unfolding when_present
anchor_parts e = first (
    (if e.repository_scope
      then some (DigestPart.text "repositoryScope" ∷ DigestPart.text "true" ∷ [])
      else none)
    ∷ when_present (λ n. DigestPart.text "issue" ∷ DigestPart.number n ∷ []) e.issue
    ∷ when_present (λ n. DigestPart.text "pullRequest" ∷ DigestPart.number n ∷ []) e.pull_request
    ∷ when_present (λ s. DigestPart.text "run" ∷ DigestPart.text s ∷ []) e.run
    ∷ when_present (λ s. DigestPart.text "claim" ∷ DigestPart.text s ∷ []) e.claim
    ∷ when_present (λ s. DigestPart.text "workspace" ∷ DigestPart.text s ∷ []) e.workspace
    ∷ when_present (λ s. DigestPart.text "stateSurface" ∷ DigestPart.text s ∷ []) e.state_surface
    ∷ [])
  where
    first : List (Option (List DigestPart)) → Option (List DigestPart)
    first [] = none
    first (none ∷ rest) = first rest
    first (some parts ∷ rest) = some parts

module _ (P : Platform) where
  mission_of : String → Option (List DigestPart) → Checked String
  mission_of repository none = err AdmissionStateError.no_evidence
  mission_of repository (some parts) =
      ok ("mission-" <> P.digest (DigestPart.text repository ∷ parts))

  -- `deterministicMissionId`
  unfoldable pub deterministic_mission_id : MissionEvidence → Checked String
  unfolding mission_of anchor_parts
  deterministic_mission_id evidence = mission_of evidence.repository (anchor_parts evidence)

  -- `deterministicExperimentMissionId`
  unfoldable pub experiment_mission_id : (lane_id parent_mission_id : String) → String
  experiment_mission_id lane_id parent =
      "experiment-"
      <> P.digest (
          DigestPart.text "isolated-experiment"
          ∷ DigestPart.text parent
          ∷ DigestPart.text lane_id
          ∷ [])

  path_evidence : Option String → Checked (Option String)
  path_evidence none = ok none
  path_evidence (some value) =
      or_throw AdmissionStateError.relative_path (canonical_path P value) >>= λ path. ok (some path)

  -- `canonicalizeMissionEvidence`
  unfoldable pub canonicalize_mission_evidence : MissionEvidence → Checked MissionEvidence
  unfolding names_work path_evidence trimmed or_throw
  canonicalize_mission_evidence value =
      reject (is_blank value.repository) AdmissionStateError.missing_repository
      >> reject (fails safe_positive value.issue) AdmissionStateError.bad_issue
      >> reject (fails safe_positive value.pull_request) AdmissionStateError.bad_pull_request
      >> reject (fails non_empty value.run) AdmissionStateError.bad_run
      >> reject (fails non_empty value.claim) AdmissionStateError.bad_claim
      >> reject (fails non_empty value.workspace) AdmissionStateError.bad_workspace
      >> reject (fails non_empty value.state_surface) AdmissionStateError.bad_state_surface
      >> (or_throw AdmissionStateError.bad_repository (canonical_repository P value.repository)
          >>= λ repository. path_evidence value.workspace >>= λ workspace.
              path_evidence value.state_surface >>= λ state_surface.
              let result : MissionEvidence = record {
                repository = repository;
                issue = value.issue;
                pull_request = value.pull_request;
                run = trimmed value.run;
                claim = trimmed value.claim;
                workspace = workspace;
                state_surface = state_surface;
                repository_scope = value.repository_scope;
              } in
              reject (not (names_work result)) AdmissionStateError.no_evidence >> ok result)

  -- `evidenceIsValid`
  unfoldable pub evidence_is_valid : MissionEvidence → Bool
  unfolding same_as
  evidence_is_valid value = same_as value (canonicalize_mission_evidence value)

  -- One path holds another, by the relative path from the one to the other.
  unfoldable pub contains : (parent child : String) → Bool
  contains parent child =
      let relative = P.relative parent child in
      (relative == "")
      || (not (starts_with relative P.parent_prefix)
          && not (relative == "..")
          && not (P.is_absolute relative))

  -- `sharedPhysicalSurface`
  unfoldable pub shared_physical_surface : MissionEvidence → MissionEvidence → Bool
  shared_physical_surface a b =
      any (λ left. any (λ right. contains left right || contains right left) (surfaces b))
        (surfaces a)

  -- `overlaps`
  unfoldable pub overlaps : MissionEvidence → MissionEvidence → Bool
  unfolding same_item
  overlaps a b =
      shared_physical_surface a b
      || ((a.repository == b.repository)
          && (a.repository_scope
              || b.repository_scope
              || same_item a.issue b.issue
              || same_item a.pull_request b.pull_request
              || same_item a.run b.run
              || same_item a.claim b.claim))
