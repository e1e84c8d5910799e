-- ===== src/Admission/Granted.antt =====
-- What a caller of `admit` holds when it is told that its lane is admitted.
use tachiko_conductor.Prelude.{
  String, string_eq, ℕ, nat_eq, option_eq, Bool, true, false, Option, none, some, ◌≡◌, ◌≢◌, refl,
  sym, ap, subst, ◌∙◌, ok, err, ◌>>◌, ◌>>=◌, >>=-eq-ok, >>-eq-ok, if◌then◌else◌,
}
use tachiko_conductor.Admission.Types.{
  ParkedReason, MissionEvidence, AdmissionToken, AdmissionRequest, AdmissionResult, LaneRecord,
  RegistryState,
}
use tachiko_conductor.Admission.Platform.{Platform}
use tachiko_conductor.Admission.Evidence.{Checked}
use tachiko_conductor.Admission.State.{is_active, is_parked, lane_by_id, find_lane, validate_state}
use tachiko_conductor.Admission.Transact.{
  RegistryFile, present, Ports, Hooks, Step, kept, wrote, before_read, before_operation,
  before_receipt, read_state, assert_authority, publish, finalize, settle, attempt, transact,
  current_of, replace_lane, put_lane, token_of, token_record,
}
use tachiko_conductor.Admission.Admit.{check_prior, check_owner, capacity_reason, owner_of}
use tachiko_conductor.Admission.Candidate.{
  mission_id_of, candidate_evidence, candidate_lane, park_candidate, deny, granted, grant,
  waits_for, waiting_answer, unless_waiting, unless_duplicate, conflicts_with, answer_candidate,
  admit_step, admit_checked, admit,
}
use tachiko_conductor.Admission.Fencing.{replace_lane-same}
use tachiko_conductor.Admission.Fenced.{Owns, IsOwner, IsOwner-current}
use tachiko_conductor.Admission.History.{attempt-Published}

module _ {A : Type 0} (P : Platform) (ports : Ports) (hooks : Hooks A) where
  -- A transaction that returns a result did what its operation said.
  pub data Did (operation : RegistryState → Checked (Step A)) (file : RegistryFile) (result : A)
      : RegistryFile → Type 0 where
    left :
        (before : RegistryState)
        → operation before ≡ ok (kept result)
        → Did operation file result file
    put :
        (before after : RegistryState)
        → operation before ≡ ok (wrote after result)
        → Did operation file result (present after)

  finalize-result :
      (after : Option (A → Checked Unit)) (value : A) {result : A}
      → finalize P ports hooks after value ≡ ok result
      → value ≡ result
  unfolding finalize
  finalize-result none value h = cc
  finalize-result (some after) value {result} h = ok_value ((>>-eq-ok _ (ok value) h).1)
    where
      ok_value : {x y : A} → ◌≡◌ {A = Checked A} (ok x) (ok y) → x ≡ y
      ok_value h = cc

  publish-kept :
      (before : RegistryState) (step : Step A) {result : A}
      → publish P ports hooks before step ≡ ok (none, result)
      → step ≡ kept result
  unfolding publish
  publish-kept before (kept last) {result} h = ap kept (go hooks.before_state_publish_on_noop h)
    where
      last_value :
          (checks : Checked Unit) {x : A}
          → ◌≡◌ {A = Checked (Option RegistryState × A)} (checks >> ok (none, last)) (ok (none, x))
          → last ≡ x
      last_value (ok _) e = cc
      last_value (err error) e = cc

      go :
          (noop : Bool) {x : A}
          → ◌≡◌ {A = Checked (Option RegistryState × A)}
              (if noop
                then validate_state P before
                  >> assert_authority P ports hooks before_receipt
                  >> hooks.before_state_publish last
                  >> ok (none, last)
                else ok (none, last))
              (ok (none, x))
          → last ≡ x
      go true e = last_value _ e
      go false e = last_value (ok tt) e
  publish-kept before (wrote state last) {result} h = absurd (some_none _ h)
    where
      some_none :
          (checks : Checked Unit) {x : A}
          → ◌≢◌ {A = Checked (Option RegistryState × A)}
              (checks >> ok (some state, last))
              (ok (none, x))
      some_none (ok _) e = cc
      some_none (err error) e = cc

  attempt-kept :
      (operation : RegistryState → Checked (Step A)) (file : RegistryFile) {result : A}
      → attempt P ports hooks operation file ≡ ok (none, result)
      → (before : RegistryState) × (operation before ≡ ok (kept result))
  unfolding attempt
  attempt-kept operation file h =
      let (before, read, rest) =
        >>=-eq-ok
          (assert_authority P ports hooks before_read >> read_state P ports.config false file)
          (λ state.
            assert_authority P ports hooks before_operation
            >> operation state
            >>= publish P ports hooks state)
          h in
      let (step, operated, publishes) =
        >>=-eq-ok (assert_authority P ports hooks before_operation >> operation before)
          (publish P ports hooks before) rest in
      (
        before,
        (>>-eq-ok (assert_authority P ports hooks before_operation) _ operated).1
            ∙ ap ok (publish-kept before step publishes),
      )

  pub transact-Did :
      (operation : RegistryState → Checked (Step A)) (file : RegistryFile) {result : A}
      → (transact P ports hooks operation file).1 ≡ ok result
      → Did operation file result ((transact P ports hooks operation file).0)
  unfolding transact settle
  transact-Did operation file {result} h = go (attempt P ports hooks operation file) refl h
    where
      go :
          (attempted : Checked (Option RegistryState × A))
          → attempt P ports hooks operation file ≡ attempted
          → (settle P ports hooks file attempted).1 ≡ ok result
          → Did operation file result ((settle P ports hooks file attempted).0)
      go (err error) e h = cc
      go (ok (none, value)) e h =
          let same : value ≡ result = finalize-result hooks.after_publish value h in
          let (before, operated) = attempt-kept operation file e in
          left before (operated ∙ ap (λ r. ok (kept r)) same)
      go (ok (some state, value)) e h =
          let same : value ≡ result = finalize-result hooks.after_publish value h in
          let (before, _, operated, _) = attempt-Published P ports hooks operation file e in
          put before state (operated ∙ ap (λ r. ok (wrote state r)) same)

-- A token that is handed out is current in the registry that is written with it.
abbrev Hands : Step AdmissionResult → Type 0
Hands (kept (AdmissionResult.admitted mission_id token revision)) = ⊥
Hands (kept _) = Unit
Hands (wrote state (AdmissionResult.admitted mission_id token revision)) =
    Owns token (present state)
Hands (wrote state _) = Unit

record Always (operation : Checked (Step AdmissionResult)) : Type 0 where
  hands : (step : Step AdmissionResult) → operation ≡ ok step → Hands step

ok-Always : {step : Step AdmissionResult} → Hands step → Always (ok step)
ok-Always {step} holds = record { hands = λ other h. subst Hands (ok_step h) holds }
  where
    ok_step :
        {x y : Step AdmissionResult}
        → ◌≡◌ {A = Checked (Step AdmissionResult)} (ok x) (ok y)
        → x ≡ y
    ok_step h = cc

>>=-Always :
    {B : Type 0} (first : Checked B) {next : B → Checked (Step AdmissionResult)}
    → ((value : B) → first ≡ ok value → Always (next value))
    → Always (first >>= next)
>>=-Always (ok value) holds = holds value refl
>>=-Always (err error) holds = record { hands = λ s h. cc }

-- The candidate's own token is current once the candidate stands in the registry.
put-Owns :
    (state : RegistryState) (candidate : LaneRecord) (now : String) (token : AdmissionToken)
    → is_active candidate ≡ true
    → token_record candidate ≡ ok token
    → Owns token (present (put_lane state candidate "admitted" now))
unfolding Owns put_lane token_record token_of
put-Owns state candidate now token active recorded =
    let owner : IsOwner token candidate = recorded-IsOwner candidate.token refl recorded in
    (
      candidate,
      ap (λ id. current_of token (lane_by_id id (replace_lane state.lanes candidate)))
            (named candidate.token recorded)
          ∙ ap (current_of token) (replace_lane-same state.lanes candidate)
          ∙ IsOwner-current token candidate owner,
    )
  where
    token_is : {x y : AdmissionToken} → ◌≡◌ {A = Checked AdmissionToken} (ok x) (ok y) → x ≡ y
    token_is h = cc

    named :
        (held : Option String)
        → token_of candidate held ≡ ok token
        → token.lane_id ≡ candidate.lane_id
    named none h = cc
    named (some text) h = ap (λ t. t.lane_id) (sym (token_is h))

    recorded-IsOwner :
        (held : Option String)
        → candidate.token ≡ held
        → token_of candidate held ≡ ok token
        → IsOwner token candidate
    recorded-IsOwner none e h = cc
    recorded-IsOwner (some text) e h = record {
      active = active;
      generation = ap (λ t. t.generation) (token_is h);
      held = e ∙ ap (λ t. some t.token) (token_is h);
    }

module _ (state : RegistryState) (prior : Option LaneRecord) (candidate : LaneRecord)
    (now : String) where
  park_candidate-Always :
      (reason : ParkedReason) → Always (ok (park_candidate state candidate now reason))
  unfolding park_candidate
  park_candidate-Always reason = ok-Always tt

  deny-Hands :
      (p : Option LaneRecord) (reason : ParkedReason) → Hands (deny state p candidate now reason)
  unfolding deny park_candidate
  deny-Hands none reason = tt
  deny-Hands (some lane) reason = go (is_parked lane)
    where
      go :
          (b : Bool)
          → Hands (
              if b
              then kept (AdmissionResult.parked lane.mission_id reason state.revision)
              else park_candidate state candidate now reason)
      go true = tt
      go false = tt

  grant-Always :
      is_active candidate ≡ true
      → (reason : Option ParkedReason) → Always (grant state prior candidate now reason)
  unfolding grant granted
  grant-Always active (some reason) = ok-Always (deny-Hands prior reason)
  grant-Always active none =
      >>=-Always (token_record candidate)
        (λ token recorded. ok-Always (put-Owns state candidate now token active recorded))

  -- A lane that waits already is told so.
  waits_for-parked :
      (lane : LaneRecord) (reason : Option ParkedReason) {answer : AdmissionResult}
      → waits_for state lane candidate reason ≡ some answer
      → Hands (kept answer)
  unfolding waits_for
  waits_for-parked lane none h = cc
  waits_for-parked lane (some reason) {answer} h = go _ h
    where
      go :
          (b : Bool)
          → (if b
              then some (AdmissionResult.parked lane.mission_id reason state.revision)
              else none)
            ≡ some answer
          → Hands (kept answer)
      go true e = subst (λ a. Hands (kept a)) (some_value e) tt
        where
          some_value :
              {x y : AdmissionResult} → ◌≡◌ {A = Option AdmissionResult} (some x) (some y) → x ≡ y
          some_value e = cc
      go false e = cc

  waiting-parked :
      (p : Option LaneRecord) {answer : AdmissionResult}
      → waiting_answer state p candidate ≡ some answer
      → Hands (kept answer)
  unfolding waiting_answer
  waiting-parked none h = cc
  waiting-parked (some lane) h = waits_for-parked lane lane.parked_reason h

  unless_waiting-Always :
      is_active candidate ≡ true
      → (answer : Option AdmissionResult) → waiting_answer state prior candidate ≡ answer
      → Always (unless_waiting state prior candidate now answer)
  unfolding unless_waiting
  unless_waiting-Always active none h = grant-Always active (capacity_reason state candidate)
  unless_waiting-Always active (some answer) h = ok-Always (waiting-parked prior h)

  unless_duplicate-Always :
      is_active candidate ≡ true
      → (conflict : Option LaneRecord)
      → Always (unless_duplicate state prior candidate now conflict)
  unfolding unless_duplicate
  unless_duplicate-Always active none =
      unless_waiting-Always active (waiting_answer state prior candidate) refl
  unless_duplicate-Always active (some conflict) = ok-Always tt

answer_candidate-Always :
    (P : Platform) (request : AdmissionRequest) (state : RegistryState) (prior : Option LaneRecord)
    (candidate : LaneRecord) (now : String)
    → is_active candidate ≡ true
    → Always (answer_candidate P request state prior candidate now)
unfolding answer_candidate
answer_candidate-Always P request state prior candidate now active = >>=-Always _ (λ _ _.
    unless_duplicate-Always state prior candidate now active
      (find_lane (conflicts_with P request candidate) state.lanes))

admit_step-Always :
    (P : Platform) (request : AdmissionRequest) (evidence : MissionEvidence)
    (now fresh_token : String) (state : RegistryState)
    → Always (admit_step P request evidence now fresh_token state)
unfolding admit_step candidate_lane
admit_step-Always P request evidence now fresh_token state =
    let prior = lane_by_id request.lane_id state.lanes in
    let owner = owner_of state request in
    >>=-Always (check_prior request prior >> check_owner state request prior owner) (λ _ _.
      >>=-Always (mission_id_of P request evidence prior owner) (λ mission_id _.
        >>=-Always (candidate_evidence evidence prior owner) (λ merged _.
          answer_candidate-Always P request state prior
            (candidate_lane request mission_id merged prior owner now fresh_token) now refl)))

-- A lane that `admit` reports as admitted owns its token in the registry that `admit` leaves.
pub admit-Owns :
    (P : Platform) (ports : Ports) (hooks : Hooks AdmissionResult) (request : AdmissionRequest)
    (now fresh_token : String) (file : RegistryFile) {mission_id : String} {token : AdmissionToken}
    {revision : ℕ}
    → (admit P ports hooks request now fresh_token file).1
      ≡ ok (AdmissionResult.admitted mission_id token revision)
    → Owns token ((admit P ports hooks request now fresh_token file).0)
unfolding admit admit_checked
admit-Owns P ports hooks request now fresh_token file {mission_id} {token} {revision} h = go _ h
  where
    from_step :
        (evidence : MissionEvidence) {after : RegistryFile}
        → Did P ports hooks
            (admit_step P request evidence now fresh_token)
            file
            (AdmissionResult.admitted mission_id token revision)
            after
        → Owns token after
    from_step evidence (left before did) =
        absurd ((admit_step-Always P request evidence now fresh_token before).hands _ did)
    from_step evidence (put before after did) =
        (admit_step-Always P request evidence now fresh_token before).hands _ did

    go :
        (checked : Checked MissionEvidence)
        → (admit_checked P ports hooks request now fresh_token file checked).1
          ≡ ok (AdmissionResult.admitted mission_id token revision)
        → Owns token ((admit_checked P ports hooks request now fresh_token file checked).0)
    go (err error) e = cc
    go (ok evidence) e = from_step evidence (transact-Did P ports hooks _ file e)
