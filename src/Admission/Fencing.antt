-- ===== src/Admission/Fencing.antt =====
-- Generations fence tokens: no operation lowers a lane's generation, or changes its owner within one,
-- so that a token that has lost its lane never owns it again.
use tachiko_conductor.Prelude.{
  some_injective, String, string_eq, nat_eq, option_eq, ◌<◌, false, ◌==◌, Option, some, List, [],
  ◌∷◌, ◌≡◌, refl, sym, ap, subst, ◌∙◌, ◌⊎◌, inl, inr, if◌then◌else◌, arith, Bool-cases,
}
use tachiko_conductor.Admission.Types.{LaneRecord, lane_status_eq}
use tachiko_conductor.Admission.State.{lane_by_id}
use tachiko_conductor.Admission.Transact.{replace_lane}

-- A lane and what became of it: a later generation, or the same one with the same owner.
abbrev pub Follows : (old new : LaneRecord) → Type 0
Follows old new =
    (old.generation < new.generation)
    ⊎ ((new.generation ≡ old.generation) × (new.status ≡ old.status) × (new.token ≡ old.token))

-- Every lane is still there, and has not gone back.
abbrev pub Advances : (old new : List LaneRecord) → Type 0
Advances old new =
    (id : String) (lane : LaneRecord)
    → lane_by_id id old ≡ some lane
    → (next : LaneRecord) × (lane_by_id id new ≡ some next) × Follows lane next

pub Follows-refl : (lane : LaneRecord) → Follows lane lane
Follows-refl lane = inr (refl, refl, refl)

pub Follows-trans : (a b c : LaneRecord) → Follows a b → Follows b c → Follows a c
Follows-trans a b c (inl less) (inl more) = inl (omega (arith, less, more))
Follows-trans a b c (inl less) (inr (same, _, _)) = inl (omega (arith, less, same))
Follows-trans a b c (inr (same, _, _)) (inl more) = inl (omega (arith, same, more))
Follows-trans a b c (inr (g, s, t)) (inr (g', s', t')) = inr (g' ∙ g, s' ∙ s, t' ∙ t)

pub Advances-refl : (lanes : List LaneRecord) → Advances lanes lanes
Advances-refl lanes id lane found = (lane, found, Follows-refl lane)

pub Advances-trans : (a b c : List LaneRecord) → Advances a b → Advances b c → Advances a c
Advances-trans a b c first second id lane found =
    let (middle, there, follows) = first id lane found in
    let (last, after, goes_on) = second id middle there in
    (last, after, Follows-trans lane middle last follows goes_on)

-- The lane that is found has the identifier that is looked for.
pub lane_by_id-id :
    (id : String) (lanes : List LaneRecord) {lane : LaneRecord}
    → lane_by_id id lanes ≡ some lane
    → lane.lane_id ≡ id
lane_by_id-id id [] found = cc
lane_by_id-id id (item ∷ items) {lane} found = elim (Bool-cases (item.lane_id == id)) [
  | inl here ↦
      let same : ◌≡◌ {A = Option LaneRecord} (some item) (some lane) =
        subst (λ b. (if b then some item else lane_by_id id items) ≡ some lane) here found in
      ap (λ r. r.lane_id) (some_injective (sym same)) ∙ (string_eq.beq_iff item.lane_id id).0 here
  | inr there ↦
      lane_by_id-id id items
        (subst (λ b. (if b then some item else lane_by_id id items) ≡ some lane) there found)
]

-- A lane that is replaced, or added, is found; the others are found as before.
pub replace_lane-same :
    (lanes : List LaneRecord) (lane : LaneRecord)
    → lane_by_id lane.lane_id (replace_lane lanes lane) ≡ some lane
unfolding replace_lane
replace_lane-same [] lane = rw ((string_eq.beq_iff lane.lane_id lane.lane_id).1 refl) refl
replace_lane-same (item ∷ items) lane = elim (Bool-cases (item.lane_id == lane.lane_id)) [
  | inl here ↦ rw (here, (string_eq.beq_iff lane.lane_id lane.lane_id).1 refl) refl
  | inr there ↦ rw (there, there) (replace_lane-same items lane)
]

pub replace_lane-other :
    (lanes : List LaneRecord) (lane : LaneRecord) (id : String)
    → (lane.lane_id == id) ≡ false
    → lane_by_id id (replace_lane lanes lane) ≡ lane_by_id id lanes
unfolding replace_lane
replace_lane-other [] lane id other = rw other refl
replace_lane-other (item ∷ items) lane id other = elim (Bool-cases (item.lane_id == lane.lane_id)) [
  | inl here ↦
      let same : item.lane_id ≡ lane.lane_id = (string_eq.beq_iff _ _).0 here in
      let passed : (item.lane_id == id) ≡ false = ap (λ name. name == id) same ∙ other in
      rw here (rw other (sym (rw passed refl)))
  | inr there ↦ rw there (elim (Bool-cases (item.lane_id == id)) [
    | inl found ↦ rw found refl
    | inr passed ↦ rw passed (replace_lane-other items lane id other)
  ])
]

-- A lane's new record, which follows the old one if there is one, advances the registry.
pub replace_lane-Advances :
    (lanes : List LaneRecord) (lane : LaneRecord)
    → ((old : LaneRecord) → lane_by_id lane.lane_id lanes ≡ some old → Follows old lane)
    → Advances lanes (replace_lane lanes lane)
replace_lane-Advances lanes lane follows id old found = elim (Bool-cases (lane.lane_id == id)) [
  | inl here ↦
      let same : lane.lane_id ≡ id = (string_eq.beq_iff _ _).0 here in
      (
        lane,
        subst (λ name. lane_by_id name (replace_lane lanes lane) ≡ some lane) same
            (replace_lane-same lanes lane),
        follows old (subst (λ name. lane_by_id name lanes ≡ some old) (sym same) found),
      )
  | inr other ↦ (old, replace_lane-other lanes lane id other ∙ found, Follows-refl old)
]
