-- ===== src/Admission/Fenced.antt =====
-- What holds along every sequence of the registry's operations: ownership is not regained, and the
-- registry is valid and within its limits.
use tachiko_conductor.Prelude.{
  some_injective, string_eq, nat_eq, option_eq, option_beq_iff, nat_beq_iff, true, ◌==◌, Option,
  none, some, ◌≡◌, refl, sym, ap, subst, ◌∙◌, inl, inr, ok, arith,
}
use tachiko_conductor.Admission.Types.{
  MissionAdmissionStatus, AdmissionToken, LaneRecord, lane_status_eq,
}
use tachiko_conductor.Admission.Platform.{Platform}
use tachiko_conductor.Admission.State.{is_active, lane_by_id}
use tachiko_conductor.Admission.Transact.{RegistryFile, current_of}
use tachiko_conductor.Admission.Fencing.{Follows}
use tachiko_conductor.Admission.History.{Runs, Runs-Leads, lanes_of}

-- The token is the capability of the lane that it names.
unfoldable pub Owns : AdmissionToken → RegistryFile → Type 0
unfolding current_of
Owns token file =
    (lane : LaneRecord) × (current_of token (lane_by_id token.lane_id (lanes_of file)) ≡ ok lane)

-- What a lane must be for its token to be current.
pub record IsOwner (token : AdmissionToken) (lane : LaneRecord) : Type 0 where
  pub active : is_active lane ≡ true
  pub generation : lane.generation ≡ token.generation
  pub held : lane.token ≡ some token.token

pub owner-IsOwner :
    (token : AdmissionToken) (found : Option LaneRecord) {lane : LaneRecord}
    → current_of token found ≡ ok lane
    → (found ≡ some lane) × IsOwner token lane
unfolding current_of
owner-IsOwner token none h = cc
owner-IsOwner token (some other) {lane} h =
    let same : other ≡ lane = ground arith in
    (
      ap some same,
      subst (IsOwner token) same (record {
        active = ground arith;
        generation = ground (arith, nat_eq.beq_iff other.generation token.generation);
        held = ground (arith, option_beq_iff other.token (some token.token));
      }),
    )

pub IsOwner-current :
    (token : AdmissionToken) (lane : LaneRecord)
    → IsOwner token lane
    → current_of token (some lane) ≡ ok lane
unfolding current_of
IsOwner-current token lane owner =
    let generation : (lane.generation == token.generation) ≡ true =
      (nat_beq_iff lane.generation token.generation).1 owner.generation in
    let held : (lane.token == some token.token) ≡ true =
      (option_beq_iff lane.token (some token.token)).1 owner.held in
    rw (owner.active, generation, held) refl

-- A token that owns its lane at two moments owns it at every moment between them: a lane that is
-- parked, released or taken over by another generation never returns to an old token.
pub fenced :
    (P : Platform) (token : AdmissionToken) {a b c : RegistryFile}
    → Runs P a b
    → Runs P b c
    → Owns token a
    → Owns token c
    → Owns token b
unfolding Owns
fenced P token {a} {b} {c} before later (first, first_current) (last, last_current) =
    let (first_found, first_owner) = owner-IsOwner token _ first_current in
    let (last_found, last_owner) = owner-IsOwner token _ last_current in
    let (middle, middle_found, follows) =
      (Runs-Leads P before).advances token.lane_id first first_found in
    let (end, end_found, goes_on) =
      (Runs-Leads P later).advances token.lane_id middle middle_found in
    let same : end ≡ last = some_injective (sym end_found ∙ last_found) in
    let closes : Follows middle last = subst (λ lane. Follows middle lane) same goes_on in
    (
      middle,
      ap (current_of token) middle_found
          ∙ IsOwner-current token middle (keeps first_owner last_owner follows closes),
    )
  where
    keeps :
        {first middle last : LaneRecord}
        → IsOwner token first
        → IsOwner token last
        → Follows first middle
        → Follows middle last
        → IsOwner token middle
    keeps own end (inl less) (inl more) =
        absurd (omega (arith, own.generation, end.generation, less, more))
    keeps own end (inl less) (inr (same, _, _)) =
        absurd (omega (arith, own.generation, end.generation, less, same))
    keeps own end (inr (g, s, t)) _ = record {
      active = ap (λ status. status == MissionAdmissionStatus.active) s ∙ own.active;
      generation = g ∙ own.generation;
      held = t ∙ own.held;
    }
