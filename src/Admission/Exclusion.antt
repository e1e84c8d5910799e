-- ===== src/Admission/Exclusion.antt =====
-- Mutual exclusion: of the lanes that may change production state, no two claim the same work.
use tachiko_conductor.Prelude.{
  some_injective, string_eq, nat_eq, option_eq, option_beq_iff, Bool, true, false, not, ◌&&◌, ◌==◌,
  Option, none, some, List, [], ◌∷◌, filter_by, ◌≡◌, ◌≢◌, refl, sym, ap, subst, ◌∙◌, inl, inr, ◌⊎◌,
  ok, reject-eq-ok, >>-eq-ok, arith, Bool-cases, Option-cases, if◌then◌else◌,
}
use tachiko_conductor.Admission.Types.{
  MissionAdmissionRole, MissionAdmissionStatus, AdmissionToken, AdmissionConfig, LaneRecord,
  RegistryState, role_eq, lane_status_eq,
}
use tachiko_conductor.Admission.Platform.{Platform}
use tachiko_conductor.Admission.Evidence.{production, mutation, overlaps}
use tachiko_conductor.Admission.State.{
  is_active, is_captain, is_delegate, is_from, same_captain, find_lane, lane_by_id, pair_overlaps,
  check_pair, check_delegate, answers_for,
}
use tachiko_conductor.Admission.Transact.{present}
use tachiko_conductor.Admission.Api.{assert_can_mutate}
use tachiko_conductor.Admission.Valid.{
  Valid, Mem, here, there, for_each-Mem, for_pairs-Mem, all_pairs-Mem, filter-Mem, any-Mem,
  one_lane,
}
use tachiko_conductor.Admission.Writers.{MayMutate, may_mutate}
use tachiko_conductor.Admission.Overlaps.{overlaps-symmetric}

find_lane-Mem :
    (test : LaneRecord → Bool) (lanes : List LaneRecord) {lane : LaneRecord}
    → find_lane test lanes ≡ some lane
    → Mem lane lanes × (test lane ≡ true)
unfolding find_lane
find_lane-Mem test [] h = cc
find_lane-Mem test (item ∷ items) {lane} h = elim (Bool-cases (test item)) [
  | inl found ↦
      let same : item ≡ lane =
        some_injective
          (subst (λ b. (if b then some item else find_lane test items) ≡ some lane) found h) in
      subst (λ l. Mem l (item ∷ items) × (test l ≡ true)) same (here, found)
  | inr passed ↦
      let (at, holds) =
        find_lane-Mem test items
          (subst (λ b. (if b then some item else find_lane test items) ≡ some lane) passed h) in
      (there at, holds)
]

-- A delegate's captain stands in the registry.
captain_of :
    (lanes : List LaneRecord) (delegate : LaneRecord)
    → check_delegate lanes delegate ≡ ok tt
    → (captain : LaneRecord) × Mem captain lanes
      × (is_from delegate captain ≡ true)
      × (is_captain captain ≡ true)
unfolding check_delegate
captain_of lanes delegate h =
    elim (Option-cases (find_lane (λ lane. is_from delegate lane && is_captain lane) lanes)) [
      | inl nobody ↦ absurd (orphan _ nobody (reject-eq-ok _ _ h))
      | inr (captain, found) ↦
          let (at, both) =
            find_lane-Mem (λ lane. is_from delegate lane && is_captain lane) lanes found in
          (captain, at, ground arith, ground arith)
    ]
  where
    orphan : (o : Option LaneRecord) → o ≡ none → not (answers_for delegate o) ≢ false
    orphan none e h = cc
    orphan (some lane) e h = cc

delegate_checked :
    (P : Platform) (state : RegistryState) (delegate : LaneRecord)
    → Valid P state
    → Mem delegate state.lanes
    → is_delegate delegate ≡ true
    → check_delegate state.lanes delegate ≡ ok tt
delegate_checked P state delegate valid at delegated =
    for_each-Mem (check_delegate state.lanes) (filter_by is_delegate state.lanes) valid.delegates
      (filter-Mem is_delegate state.lanes at delegated)

-- A delegate whose captain may write is no active delegate.
no_delegate :
    (P : Platform) (state : RegistryState) {token captain_token : AdmissionToken}
    (delegate captain : LaneRecord)
    → Valid P state
    → MayMutate state token delegate
    → MayMutate state captain_token captain
    → is_delegate delegate ≡ true
    → is_from delegate captain ≢ true
no_delegate P state delegate captain valid writer owner delegated from =
    let (other, at, from_other, leads) =
      captain_of state.lanes delegate
        (delegate_checked P state delegate valid writer.stands delegated) in
    let named : other.lane_id ≡ captain.lane_id = some_injective (
      sym ((option_beq_iff delegate.delegated_from_lane_id (some other.lane_id)).0 from_other)
      ∙ (option_beq_iff delegate.delegated_from_lane_id (some captain.lane_id)).0 from) in
    let same : other ≡ captain = one_lane P state valid other captain at owner.stands named in
    let silent : (is_active delegate && is_delegate delegate && is_from delegate captain) ≡ false =
      any-Mem (λ lane. is_active lane && is_delegate lane && is_from lane captain) state.lanes
        writer.stands (owner.alone (ap is_captain (sym same) ∙ leads)) in
    absurd (three _ _ _ writer.owner.active delegated from silent)
  where
    three : (x y z : Bool) → x ≡ true → y ≡ true → z ≡ true → (x && y && z) ≢ false
    three x y z a b c d = ground arith

-- Two active delegates of one captain are one lane.
one_delegate :
    (P : Platform) (state : RegistryState) {first second : AdmissionToken} (a b : LaneRecord)
    → Valid P state
    → MayMutate state first a
    → MayMutate state second b
    → is_delegate a ≡ true
    → is_delegate b ≡ true
    → same_captain a b ≡ true
    → a ≡ b
one_delegate P state a b valid may_a may_b delegate_a delegate_b same =
    elim (all_pairs-Mem (λ left right. not (same_captain left right))
      (filter_by (λ lane. is_active lane && is_delegate lane) state.lanes) valid.single
      (filter-Mem _ state.lanes may_a.stands (both _ _ may_a.owner.active delegate_a))
      (filter-Mem _ state.lanes may_b.stands (both _ _ may_b.owner.active delegate_b))) [
        | inl one ↦ one
        | inr (inl other) ↦ absurd (clash _ same other)
        | inr (inr other) ↦ absurd (clash _ (swapped same) other)
      ]
  where
    both : (x y : Bool) → x ≡ true → y ≡ true → (x && y) ≡ true
    both x y e f = ground arith

    clash : (x : Bool) → x ≡ true → not x ≢ true
    clash x e f = ground arith

    swapped : same_captain a b ≡ true → same_captain b a ≡ true
    swapped e = ground (
      arith,
      option_beq_iff a.delegated_from_lane_id b.delegated_from_lane_id,
      option_beq_iff b.delegated_from_lane_id a.delegated_from_lane_id,
      option_beq_iff a.delegated_from_generation b.delegated_from_generation,
      option_beq_iff b.delegated_from_generation a.delegated_from_generation,
      e,
    )

-- Of two lanes that may write and whose pair passes the registry's test, overlapping ones are one.
one_writer :
    (P : Platform) (state : RegistryState) {first second : AdmissionToken} (a b : LaneRecord)
    → Valid P state
    → MayMutate state first a
    → MayMutate state second b
    → overlaps P a.evidence b.evidence ≡ true
    → check_pair P a b ≡ ok tt
    → a ≡ b
unfolding check_pair pair_overlaps
one_writer P state a b valid may_a may_b overlapping checked =
    elim (exempt _ _ _ _ _ _ _ _ (not_released a.status may_a.owner.active)
      (not_released b.status may_b.owner.active) (produces a.role may_a.writes)
      (produces b.role may_b.writes) overlapping
      (reject-eq-ok _ _ (>>-eq-ok _ _ ((>>-eq-ok _ (ok tt) checked).0)).0)) [
        | inl from_b ↦ absurd (
            no_delegate P state a b valid may_a may_b ((and_parts _ _ from_b).0)
              ((and_parts _ _ from_b).1))
        | inr (inl from_a) ↦ absurd (
            no_delegate P state b a valid may_b may_a ((and_parts _ _ from_a).0)
              ((and_parts _ _ from_a).1))
        | inr (inr same) ↦
            let (delegates, captain) = and_parts _ _ same in
            let (delegate_a, delegate_b) = and_parts _ _ delegates in
            one_delegate P state a b valid may_a may_b delegate_a delegate_b captain
      ]
  where
    and_parts : (x y : Bool) → (x && y) ≡ true → (x ≡ true) × (y ≡ true)
    and_parts x y h = (ground arith, ground arith)

    not_released :
        (status : MissionAdmissionStatus)
        → (status == MissionAdmissionStatus.active) ≡ true
        → (status == MissionAdmissionStatus.released) ≡ false
    not_released status h = ground arith

    produces : (role : MissionAdmissionRole) → mutation role ≡ true → production role ≡ true
    produces role h = ground arith

    exempt :
        (r1 r2 p1 p2 o e1 e2 e3 : Bool)
        → r1 ≡ false
        → r2 ≡ false
        → p1 ≡ true
        → p2 ≡ true
        → o ≡ true
        → (not r1 && not r2 && p1 && p2 && o && not e1 && not e2 && not e3) ≡ false
        → (e1 ≡ true) ⊎ (e2 ≡ true) ⊎ (e3 ≡ true)
    exempt r1 r2 p1 p2 o true e2 e3 a b c d e h = inl refl
    exempt r1 r2 p1 p2 o false true e3 a b c d e h = inr (inl refl)
    exempt r1 r2 p1 p2 o false false true a b c d e h = inr (inr refl)
    exempt r1 r2 p1 p2 o false false false a b c d e h = absurd (ground arith)

token_eq :
    (x y : AdmissionToken)
    → x.lane_id ≡ y.lane_id
    → x.generation ≡ y.generation
    → x.token ≡ y.token
    → x ≡ y
token_eq x y l g t = λ i. record { lane_id = l i; generation = g i; token = t i }

-- Two capabilities that may both change production state in one registry, whose lanes' evidence
-- overlaps (the same issue, pull request, run, claim or repository, or a shared directory), are one
-- capability.
pub exclusive :
    (P : Platform) (config : AdmissionConfig) (state : RegistryState)
    (first second : AdmissionToken) (a b : LaneRecord)
    → assert_can_mutate P config first (present state) ≡ ok tt
    → assert_can_mutate P config second (present state) ≡ ok tt
    → lane_by_id first.lane_id state.lanes ≡ some a
    → lane_by_id second.lane_id state.lanes ≡ some b
    → overlaps P a.evidence b.evidence ≡ true
    → first ≡ second
exclusive P config state first second a b mutates_a mutates_b found_a found_b overlapping =
    let (valid, a', found_a', may_a') = may_mutate P config state first mutates_a in
    let (_, b', found_b', may_b') = may_mutate P config state second mutates_b in
    let may_a : MayMutate state first a =
      subst (MayMutate state first) (some_injective (sym found_a' ∙ found_a)) may_a' in
    let may_b : MayMutate state second b =
      subst (MayMutate state second) (some_injective (sym found_b' ∙ found_b)) may_b' in
    same_token may_a may_b (one P state a b valid may_a may_b overlapping)
  where
    one :
        (P : Platform) (state : RegistryState) {first second : AdmissionToken} (a b : LaneRecord)
        → Valid P state
        → MayMutate state first a
        → MayMutate state second b
        → overlaps P a.evidence b.evidence ≡ true
        → a ≡ b
    one P state a b valid may_a may_b overlapping =
        elim (for_pairs-Mem (check_pair P) state.lanes valid.pairs may_a.stands may_b.stands) [
          | inl same ↦ same
          | inr (inl checked) ↦ one_writer P state a b valid may_a may_b overlapping checked
          | inr (inr checked) ↦ sym (
              one_writer P state b a valid may_b may_a
                (overlaps-symmetric P a.evidence b.evidence overlapping) checked)
        ]

    same_token :
        {first second : AdmissionToken} {a b : LaneRecord}
        → MayMutate state first a
        → MayMutate state second b
        → a ≡ b
        → first ≡ second
    same_token {first} {second} {a} {b} may_a may_b same =
        token_eq first second (sym may_a.named ∙ ap (λ l. l.lane_id) same ∙ may_b.named)
          (sym may_a.owner.generation ∙ ap (λ l. l.generation) same ∙ may_b.owner.generation)
          (some_injective (sym may_a.owner.held ∙ ap (λ l. l.token) same ∙ may_b.owner.held))
