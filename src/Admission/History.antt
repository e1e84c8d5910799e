-- ===== src/Admission/History.antt =====
-- Sequences of the registry's operations, and what holds along all of them.
use tachiko_conductor.Prelude.{
  String, ℕ, nat_eq, string_eq, option_eq, ◌≢◌, Bool, true, false, Option, none, some, List, [],
  ◌≡◌, refl, sym, ap, subst, ◌∙◌, ok, err, ◌>>◌, >>=-eq-ok, >>-eq-ok, if◌then◌else◌,
}
use tachiko_conductor.Admission.Types.{
  ParkedReason, MissionEvidence, AdmissionToken, AdmissionRequest, AdmissionResult, LaneRecord,
  RegistryState, lane_status_eq,
}
use tachiko_conductor.Admission.Platform.{Platform}
use tachiko_conductor.Admission.Evidence.{Checked}
use tachiko_conductor.Admission.State.{validate_state}
use tachiko_conductor.Admission.Transact.{
  RegistryFile, missing, unreadable, present, Ports, Hooks, Step, kept, wrote, initial_state,
  read_state, before_receipt, assert_authority, publish, settle, attempt, transact,
}
use tachiko_conductor.Admission.Candidate.{admit, admit_checked}
use tachiko_conductor.Admission.Operations.{ManualProof}
use tachiko_conductor.Admission.Fences.{MergedLane}
use tachiko_conductor.Admission.Api.{
  after_checks, strengthen, renew, park, park_manual, retire_manual, release, release_parked,
  with_exact_released_lane, with_lane_lock, with_run_transition_fence, reconcile_merged_run,
}
use tachiko_conductor.Admission.Fencing.{Advances, Advances-refl, Advances-trans}
use tachiko_conductor.Admission.Steps.{
  strengthen_step-Keeps, renew_step-Keeps, park_step-Keeps, park_manual_step-Keeps,
  retire_manual_step-Keeps, release_step-Keeps, release_parked_step-Keeps,
  exact_released_step-Keeps, lane_lock_step-Keeps, run_fence_step-Keeps,
  reconcile_merged_step-Keeps,
}
use tachiko_conductor.Admission.Rules.{Keeps}
use tachiko_conductor.Admission.Admitting.{admit_step-Keeps}

-- One call of a method of the registry, and the file after it.
pub data Operates (P : Platform) : RegistryFile → RegistryFile → Type 1 where
  admits :
      (ports : Ports) (hooks : Hooks AdmissionResult) (request : AdmissionRequest)
      (now fresh_token : String) (file : RegistryFile)
      → Operates P file ((admit P ports hooks request now fresh_token file).0)
  strengthens :
      (ports : Ports) (hooks : Hooks ℕ) (token : AdmissionToken) (evidence : MissionEvidence)
      (now : String) (file : RegistryFile)
      → Operates P file ((strengthen P ports hooks token evidence now file).0)
  renews :
      (ports : Ports) (hooks : Hooks AdmissionToken) (token : AdmissionToken) (now : String)
      (file : RegistryFile)
      → Operates P file ((renew P ports hooks token now file).0)
  parks :
      (ports : Ports) (hooks : Hooks ℕ) (token : AdmissionToken) (reason : ParkedReason)
      (now : String) (file : RegistryFile)
      → Operates P file ((park P ports hooks token reason now file).0)
  parks_manual :
      (ports : Ports) (hooks : Hooks ℕ) (token : AdmissionToken) (proof : ManualProof)
      (now : String) (file : RegistryFile)
      → Operates P file ((park_manual P ports hooks token proof now file).0)
  retires_manual :
      (ports : Ports) (hooks : Hooks ℕ) (lane_id : String) (generation : ℕ) (proof : ManualProof)
      (now : String) (file : RegistryFile)
      → Operates P file ((retire_manual P ports hooks lane_id generation proof now file).0)
  releases :
      (ports : Ports) (hooks : Hooks (ℕ × LaneRecord × LaneRecord)) (token : AdmissionToken)
      (stopped : Bool) (now : String) (file : RegistryFile)
      → Operates P file ((release P ports hooks token stopped now file).0)
  releases_parked :
      (ports : Ports) (hooks : Hooks (ℕ × Option LaneRecord × LaneRecord)) (lane_id : String)
      (generation : ℕ) (stopped : Bool) (now : String) (file : RegistryFile)
      → Operates P file ((release_parked P ports hooks lane_id generation stopped now file).0)
  reconciles_released :
      (ports : Ports) (hooks : Hooks LaneRecord) (lane_id : String) (generation : ℕ)
      (file : RegistryFile)
      → Operates P file ((with_exact_released_lane P ports hooks lane_id generation file).0)
  locks_lane :
      {A : Type 0} (ports : Ports) (hooks : Hooks A) (lane_id : String)
      (operation : Option LaneRecord → Checked A) (file : RegistryFile)
      → Operates P file ((with_lane_lock P ports hooks lane_id operation file).0)
  fences_run :
      {A : Type 0} (ports : Ports) (hooks : Hooks A) (run_id : String) (operation : Checked A)
      (file : RegistryFile)
      → Operates P file ((with_run_transition_fence P ports hooks run_id operation file).0)
  reconciles_merged :
      (ports : Ports) (hooks : Hooks MergedLane) (run_id now : String) (file : RegistryFile)
      → Operates P file ((reconcile_merged_run P ports hooks run_id now file).0)

-- Any sequence of calls, of any number of processes, in the order of their locks.
pub data Runs (P : Platform) : RegistryFile → RegistryFile → Type 1 where
  done : {file : RegistryFile} → Runs P file file
  after : {a b c : RegistryFile} → Runs P a b → Operates P b c → Runs P a c

abbrev pub lanes_of : RegistryFile → List LaneRecord
lanes_of missing = []
lanes_of unreadable = []
lanes_of (present state) = state.lanes

-- The registry in a file passes the code's own test.
abbrev pub IsValid : Platform → RegistryFile → Type 0
IsValid P (present state) = validate_state P state ≡ ok tt
IsValid P _ = Unit

-- A file and a later one.
pub record Leads (P : Platform) (old new : RegistryFile) : Type 0 where
  pub advances : Advances (lanes_of old) (lanes_of new)
  pub valid : IsValid P old → IsValid P new

Leads-refl : (P : Platform) (file : RegistryFile) → Leads P file file
Leads-refl P file = record { advances = Advances-refl (lanes_of file); valid = λ v. v }

Leads-trans : (P : Platform) {a b c : RegistryFile} → Leads P a b → Leads P b c → Leads P a c
Leads-trans P {a} {b} {c} first second = record {
  advances = Advances-trans (lanes_of a) (lanes_of b) (lanes_of c) first.advances second.advances;
  valid = λ v. second.valid (first.valid v);
}

abbrev lanes_in : RegistryState → List LaneRecord
lanes_in state = state.lanes

ok_injective : {s t : RegistryState} → ◌≡◌ {A = Checked RegistryState} (ok s) (ok t) → s ≡ t
ok_injective h = cc

module _ {A : Type 0} where
  not_published :
      (last : A) (checks : Checked Unit) {state : RegistryState} {result : A}
      → ◌≢◌ {A = Checked (Option RegistryState × A)}
          (checks >> ok (none, last))
          (ok (some state, result))
  not_published last (ok _) h = cc
  not_published last (err error) h = cc

  pub published :
      {state last : RegistryState} {result other : A}
      → ◌≡◌ {A = Checked (Option RegistryState × A)}
          (ok (some last, other))
          (ok (some state, result))
      → ◌≡◌ {A = Step A} (wrote last other) (wrote state result)
  published h = cc

module _ {A : Type 0} (P : Platform) (ports : Ports) (hooks : Hooks A) where
  -- What is published is what the operation wrote, and is valid.
  pub publish-wrote :
      (before : RegistryState) (step : Step A) {state : RegistryState} {result : A}
      → publish P ports hooks before step ≡ ok (some state, result)
      → (step ≡ wrote state result) × (validate_state P state ≡ ok tt)
  unfolding publish
  publish-wrote before (kept last) h = absurd (go hooks.before_state_publish_on_noop h)
    where
      go :
          (noop : Bool) {state : RegistryState} {result : A}
          → ◌≢◌ {A = Checked (Option RegistryState × A)}
              (if noop
                then validate_state P before
                  >> assert_authority P ports hooks before_receipt
                  >> hooks.before_state_publish last
                  >> ok (none, last)
                else ok (none, last))
              (ok (some state, result))
      go true = not_published last _
      go false = not_published last (ok tt)
  publish-wrote before (wrote last other) {state} {result} h =
      let (checks, same) = >>-eq-ok _ (ok (some last, other)) h in
      let (c1, _) = >>-eq-ok _ _ checks in
      let (c2, _) = >>-eq-ok _ _ c1 in
      let (c3, _) = >>-eq-ok _ _ c2 in
      let (c4, _) = >>-eq-ok _ _ c3 in
      let (valid, _) = >>-eq-ok _ _ c4 in
      let wrote_it : ◌≡◌ {A = Step A} (wrote last other) (wrote state result) = published same in
      (wrote_it, subst (λ s. validate_state P s ≡ ok tt) (wrote_state wrote_it) valid)
    where
      wrote_state :
          {s t : RegistryState} {q r : A} → ◌≡◌ {A = Step A} (wrote s q) (wrote t r) → s ≡ t
      wrote_state e = cc

  >>-value : {B : Type 0} (m : Checked Unit) (k : Checked B) {b : B} → (m >> k) ≡ ok b → k ≡ ok b
  >>-value m k h = (>>-eq-ok m k h).1

  -- A registry is read with the lanes of its file.
  read-lanes :
      (file : RegistryFile) {state : RegistryState}
      → read_state P ports.config false file ≡ ok state
      → state.lanes ≡ lanes_of file
  unfolding read_state initial_state
  read-lanes missing h = ap lanes_in (sym (ok_injective h))
  read-lanes unreadable h = cc
  read-lanes (present held) h = ap lanes_in (sym (ok_injective (>>-value _ (ok held) h)))

  pub attempt-Published :
      (operation : RegistryState → Checked (Step A)) (file : RegistryFile) {state : RegistryState}
      {result : A}
      → attempt P ports hooks operation file ≡ ok (some state, result)
      → (before : RegistryState) × (before.lanes ≡ lanes_of file)
        × (operation before ≡ ok (wrote state result))
        × (validate_state P state ≡ ok tt)
  unfolding attempt
  attempt-Published operation file h =
      let (before, read, rest) = >>=-eq-ok _ _ h in
      let (step, operated, publishes) = >>=-eq-ok _ _ rest in
      let (same, valid) = publish-wrote before step publishes in
      (before, read-lanes file (>>-value _ _ read), >>-value _ _ operated ∙ ap ok same, valid)

  -- A transaction leads on from the file, if its operation advances the lanes.
  transact-Leads :
      (operation : RegistryState → Checked (Step A))
      → ((state : RegistryState) → Keeps state.lanes (operation state))
      → (file : RegistryFile) → Leads P file ((transact P ports hooks operation file).0)
  unfolding transact settle
  transact-Leads operation keeps file = go (attempt P ports hooks operation file) refl
    where
      go :
          (attempted : Checked (Option RegistryState × A))
          → attempt P ports hooks operation file ≡ attempted
          → Leads P file ((settle P ports hooks file attempted).0)
      go (err error) h = Leads-refl P file
      go (ok (none, result)) h = Leads-refl P file
      go (ok (some state, result)) h =
          let (before, same, operated, valid) = attempt-Published operation file h in
          record {
            advances =
                subst (λ lanes. Advances lanes state.lanes) same
                  ((keeps before).advances state result operated);
            valid = λ _. valid;
          }

after_checks-Leads :
    {A B : Type 0} (P : Platform) (checked : Checked A)
    (transaction : A → RegistryFile → RegistryFile × Checked B) (file : RegistryFile)
    → ((value : A) → Leads P file ((transaction value file).0))
    → Leads P file ((after_checks checked transaction file).0)
unfolding after_checks
after_checks-Leads P (err error) transaction file leads = Leads-refl P file
after_checks-Leads P (ok value) transaction file leads = leads value

admit_checked-Leads :
    (P : Platform) (ports : Ports) (hooks : Hooks AdmissionResult) (request : AdmissionRequest)
    (now fresh_token : String) (file : RegistryFile) (checked : Checked MissionEvidence)
    → Leads P file ((admit_checked P ports hooks request now fresh_token file checked).0)
unfolding admit_checked
admit_checked-Leads P ports hooks request now fresh_token file (err error) = Leads-refl P file
admit_checked-Leads P ports hooks request now fresh_token file (ok evidence) =
    transact-Leads P ports hooks _ (admit_step-Keeps P request evidence now fresh_token) file

Operates-Leads : (P : Platform) {a b : RegistryFile} → Operates P a b → Leads P a b
unfolding admit strengthen renew park park_manual retire_manual release release_parked
    with_exact_released_lane with_lane_lock with_run_transition_fence reconcile_merged_run
Operates-Leads P (admits ports hooks request now fresh_token file) =
    admit_checked-Leads P ports hooks request now fresh_token file _
Operates-Leads P (strengthens ports hooks token evidence now file) =
    after_checks-Leads P _ _ file (λ canonical.
      transact-Leads P ports hooks _ (strengthen_step-Keeps P token canonical now) file)
Operates-Leads P (renews ports hooks token now file) =
    transact-Leads P ports hooks _ (renew_step-Keeps token now) file
Operates-Leads P (parks ports hooks token reason now file) =
    transact-Leads P ports hooks _ (park_step-Keeps token reason now) file
Operates-Leads P (parks_manual ports hooks token proof now file) =
    after_checks-Leads P _ _ file
      (λ worktree. transact-Leads P ports hooks _ (park_manual_step-Keeps token worktree now) file)
Operates-Leads P (retires_manual ports hooks lane_id generation proof now file) =
    after_checks-Leads P _ _ file (λ worktree.
      transact-Leads P ports hooks _ (retire_manual_step-Keeps lane_id generation worktree now)
        file)
Operates-Leads P (releases ports hooks token stopped now file) =
    after_checks-Leads P _ _ file
      (λ _. transact-Leads P ports hooks _ (release_step-Keeps token now) file)
Operates-Leads P (releases_parked ports hooks lane_id generation stopped now file) =
    after_checks-Leads P _ _ file
      (λ _. transact-Leads P ports hooks _ (release_parked_step-Keeps lane_id generation now) file)
Operates-Leads P (reconciles_released ports hooks lane_id generation file) =
    after_checks-Leads P _ _ file
      (λ _. transact-Leads P ports hooks _ (exact_released_step-Keeps lane_id generation) file)
Operates-Leads P (locks_lane ports hooks lane_id operation file) =
    after_checks-Leads P _ _ file
      (λ _. transact-Leads P ports hooks _ (lane_lock_step-Keeps lane_id operation) file)
Operates-Leads P (fences_run ports hooks run_id operation file) =
    after_checks-Leads P _ _ file
      (λ _. transact-Leads P ports hooks _ (run_fence_step-Keeps run_id operation) file)
Operates-Leads P (reconciles_merged ports hooks run_id now file) =
    after_checks-Leads P _ _ file
      (λ _. transact-Leads P ports hooks _ (reconcile_merged_step-Keeps run_id now) file)

pub Runs-Leads : (P : Platform) {a b : RegistryFile} → Runs P a b → Leads P a b
Runs-Leads P {a} done = Leads-refl P a
Runs-Leads P (after runs step) = Leads-trans P (Runs-Leads P runs) (Operates-Leads P step)
