-- ===== src/Admission/Admitting.antt =====
-- `admit` advances the lanes of the registry.
use tachiko_conductor.Prelude.{
  String, string_eq, nat_eq, option_eq, ◌<◌, Option, none, some, ◌≡◌, refl, sym, ap, subst, ◌∙◌,
  inl, ok, ◌>>◌, arith,
}
use tachiko_conductor.Admission.Types.{
  ParkedReason, MissionEvidence, AdmissionToken, AdmissionRequest, LaneRecord, RegistryState,
  AdmissionResult,
}
use tachiko_conductor.Admission.Platform.{Platform}
use tachiko_conductor.Admission.State.{is_parked, find_lane, lane_by_id}
use tachiko_conductor.Admission.Transact.{wrote, put_lane}
use tachiko_conductor.Admission.Admit.{check_prior, check_owner, capacity_reason, owner_of}
use tachiko_conductor.Admission.Candidate.{
  generation_of, mission_id_of, candidate_evidence, candidate_lane, park_candidate, deny, granted,
  grant, waiting_answer, unless_waiting, unless_duplicate, conflicts_with, answer_candidate,
  admit_step,
}
use tachiko_conductor.Admission.Fencing.{replace_lane-Advances}
use tachiko_conductor.Admission.Rules.{
  Keeps, >>=-Keeps, each-Keeps, >>-Keeps, kept-Keeps, ok_if-Keeps, wrote-Keeps,
}

-- The lane that `admit` puts is of the next generation.
module _ (state : RegistryState) (prior : Option LaneRecord) (now : String) where
  put_candidate-Keeps :
      {A : Type 0} {result : A} (kind at_time : String) (next : LaneRecord)
      → lane_by_id next.lane_id state.lanes ≡ prior
      → generation_of prior < next.generation
      → Keeps state.lanes (ok (wrote (put_lane state next kind at_time) result))
  unfolding put_lane
  put_candidate-Keeps kind at_time next found later = wrote-Keeps (
      replace_lane-Advances state.lanes next (λ old there.
        inl (subst (λ p. generation_of p < next.generation) (sym found ∙ there) later)))

  module _ (candidate : LaneRecord) (found : lane_by_id candidate.lane_id state.lanes ≡ prior)
      (later : generation_of prior < candidate.generation) where
    park_candidate-Keeps :
        (reason : ParkedReason) → Keeps state.lanes (ok (park_candidate state candidate now reason))
    unfolding park_candidate
    park_candidate-Keeps reason = put_candidate-Keeps _ _ _ found later

    deny-Keeps :
        (reason : ParkedReason) → Keeps state.lanes (ok (deny state prior candidate now reason))
    unfolding deny
    deny-Keeps reason = go prior
      where
        go : (p : Option LaneRecord) → Keeps state.lanes (ok (deny state p candidate now reason))
        go none = park_candidate-Keeps reason
        go (some lane) = ok_if-Keeps (is_parked lane) kept-Keeps (park_candidate-Keeps reason)

    granted-Keeps : (token : AdmissionToken) → Keeps state.lanes (granted state candidate now token)
    unfolding granted
    granted-Keeps token = put_candidate-Keeps _ _ candidate found later

    grant-Keeps :
        (reason : Option ParkedReason) → Keeps state.lanes (grant state prior candidate now reason)
    unfolding grant
    grant-Keeps (some reason) = deny-Keeps reason
    grant-Keeps none = >>=-Keeps (λ token _. granted-Keeps token)

    unless_waiting-Keeps :
        (answer : Option AdmissionResult)
        → Keeps state.lanes (unless_waiting state prior candidate now answer)
    unfolding unless_waiting
    unless_waiting-Keeps none = grant-Keeps (capacity_reason state candidate)
    unless_waiting-Keeps (some answer) = kept-Keeps

    unless_duplicate-Keeps :
        (conflict : Option LaneRecord)
        → Keeps state.lanes (unless_duplicate state prior candidate now conflict)
    unfolding unless_duplicate
    unless_duplicate-Keeps none = unless_waiting-Keeps (waiting_answer state prior candidate)
    unless_duplicate-Keeps (some conflict) = kept-Keeps

answer_candidate-Keeps :
    (P : Platform) (request : AdmissionRequest) (state : RegistryState) (candidate : LaneRecord)
    (now : String)
    → candidate.lane_id ≡ request.lane_id
    → generation_of (lane_by_id request.lane_id state.lanes) < candidate.generation
    → Keeps state.lanes
        (answer_candidate P request state (lane_by_id request.lane_id state.lanes) candidate now)
unfolding answer_candidate
answer_candidate-Keeps P request state candidate now named later = >>-Keeps _ (
    unless_duplicate-Keeps state (lane_by_id request.lane_id state.lanes) now candidate
      (ap (λ id. lane_by_id id state.lanes) named) later
      (find_lane (conflicts_with P request candidate) state.lanes))

pub admit_step-Keeps :
    (P : Platform) (request : AdmissionRequest) (evidence : MissionEvidence)
    (now fresh_token : String) (state : RegistryState)
    → Keeps state.lanes (admit_step P request evidence now fresh_token state)
unfolding admit_step candidate_lane
admit_step-Keeps P request evidence now fresh_token state =
    let prior = lane_by_id request.lane_id state.lanes in
    let owner = owner_of state request in
    >>-Keeps (check_prior request prior >> check_owner state request prior owner) (
      each-Keeps (mission_id_of P request evidence prior owner) (λ mission_id.
        each-Keeps (candidate_evidence evidence prior owner) (λ merged.
          answer_candidate-Keeps P request state
            (candidate_lane request mission_id merged prior owner now fresh_token) now refl
            (omega arith))))
