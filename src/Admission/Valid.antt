-- ===== src/Admission/Valid.antt =====
-- What the code's test of a registry says of the registry.
use tachiko_conductor.Prelude.{if◌then◌else◌, subst}
use tachiko_conductor.Prelude.{
  String, string_eq, nat_eq, option_eq, Bool, true, false, not, ◌&&◌, ◌==◌, List, [], ◌∷◌, all, any,
  map, filter_by, ◌≡◌, ◌≢◌, refl, sym, ap, ◌∙◌, inl, inr, ◌⊎◌, ok, reject, reject-eq-ok, >>-eq-ok,
  arith, Bool-cases,
}
use tachiko_conductor.Admission.Types.{
  LaneRecord, RegistryState, AdmissionStateError, lane_status_eq,
}
use tachiko_conductor.Admission.Platform.{Platform}
use tachiko_conductor.Admission.Evidence.{Checked}
use tachiko_conductor.Admission.State.{
  is_active, is_delegate, validate_state, all_distinct, all_pairs, for_pairs, for_each, check_pair,
  check_delegate, same_captain, over_capacity, active_lanes,
}

not-eq-false : (b : Bool) → not b ≡ false → b ≡ true
not-eq-false true h = refl
not-eq-false false h = cc

-- A test that is not rejected.
passes : (b : Bool) (e : AdmissionStateError) → reject (not b) e ≡ ok tt → b ≡ true
passes b e h = not-eq-false b (reject-eq-ok (not b) e h)

pub record Valid (P : Platform) (state : RegistryState) : Type 0 where
  pub ids : all_distinct (map (λ lane. lane.lane_id) state.lanes) ≡ true
  pub pairs : for_pairs (check_pair P) state.lanes ≡ ok tt
  pub tokens : all_distinct (map (λ lane. lane.token) (active_lanes state)) ≡ true
  pub capacity : over_capacity state ≡ false
  pub delegates : for_each (check_delegate state.lanes) (filter_by is_delegate state.lanes) ≡ ok tt
  pub single :
      all_pairs
        (λ left right. not (same_captain left right))
        (filter_by (λ lane. is_active lane && is_delegate lane) state.lanes)
      ≡ true

pub validate-Valid :
    (P : Platform) (state : RegistryState) → validate_state P state ≡ ok tt → Valid P state
unfolding validate_state
validate-Valid P state h =
    let (h10, single) = >>-eq-ok _ _ h in
    let (h9, delegates) = >>-eq-ok _ _ h10 in
    let (h8, capacity) = >>-eq-ok _ _ h9 in
    let (h7, repositories) = >>-eq-ok _ _ h8 in
    let (h6, tokens) = >>-eq-ok _ _ h7 in
    let (h5, transition) = >>-eq-ok _ _ h6 in
    let (h4, pairs) = >>-eq-ok _ _ h5 in
    let (h3, ids) = >>-eq-ok _ _ h4 in
    record {
      ids = passes _ _ ids;
      pairs = pairs;
      tokens = passes _ _ tokens;
      capacity = reject-eq-ok _ _ capacity;
      delegates = delegates;
      single = passes _ _ single;
    }

-- A place in a list.
pub data Mem {ℓ} {A : Type ℓ} (a : A) : List A → Type ℓ where
  here : {xs : List A} → Mem a (a ∷ xs)
  there : {x : A} {xs : List A} → Mem a xs → Mem a (x ∷ xs)

module _ {A : Type 0} where
  pub for_each-Mem :
      (check : A → Checked Unit) (xs : List A) {a : A}
      → for_each check xs ≡ ok tt
      → Mem a xs
      → check a ≡ ok tt
  unfolding for_each
  for_each-Mem check [] h at = elim at [ ]
  for_each-Mem check (x ∷ xs) h here = (>>-eq-ok _ _ h).0
  for_each-Mem check (x ∷ xs) h (there at) = for_each-Mem check xs ((>>-eq-ok _ _ h).1) at

  -- Two places are one element, or the pair was checked in the one order or the other.
  pub for_pairs-Mem :
      (check : A → A → Checked Unit) (xs : List A) {a b : A}
      → for_pairs check xs ≡ ok tt
      → Mem a xs
      → Mem b xs
      → (a ≡ b) ⊎ (check a b ≡ ok tt) ⊎ (check b a ≡ ok tt)
  unfolding for_pairs
  for_pairs-Mem check [] h at _ = elim at [ ]
  for_pairs-Mem check (x ∷ xs) h here here = inl refl
  for_pairs-Mem check (x ∷ xs) h here (there at) =
      inr (inl (for_each-Mem (check x) xs ((>>-eq-ok _ _ h).0) at))
  for_pairs-Mem check (x ∷ xs) h (there at) here =
      inr (inr (for_each-Mem (check x) xs ((>>-eq-ok _ _ h).0) at))
  for_pairs-Mem check (x ∷ xs) h (there first) (there second) =
      for_pairs-Mem check xs ((>>-eq-ok _ _ h).1) first second

  pub all-Mem : (p : A → Bool) (xs : List A) {a : A} → all p xs ≡ true → Mem a xs → p a ≡ true
  all-Mem p [] h at = elim at [ ]
  all-Mem p (x ∷ xs) h here = ground arith
  all-Mem p (x ∷ xs) h (there at) = all-Mem p xs (ground arith) at

  pub all_pairs-Mem :
      (p : A → A → Bool) (xs : List A) {a b : A}
      → all_pairs p xs ≡ true
      → Mem a xs
      → Mem b xs
      → (a ≡ b) ⊎ (p a b ≡ true) ⊎ (p b a ≡ true)
  unfolding all_pairs
  all_pairs-Mem p [] h at _ = elim at [ ]
  all_pairs-Mem p (x ∷ xs) h here here = inl refl
  all_pairs-Mem p (x ∷ xs) h here (there at) = inr (inl (all-Mem (p x) xs (ground arith) at))
  all_pairs-Mem p (x ∷ xs) h (there at) here = inr (inr (all-Mem (p x) xs (ground arith) at))
  all_pairs-Mem p (x ∷ xs) h (there first) (there second) =
      all_pairs-Mem p xs (ground arith) first second

  pub filter-Mem :
      (p : A → Bool) (xs : List A) {a : A} → Mem a xs → p a ≡ true → Mem a (filter_by p xs)
  filter-Mem p [] at h = elim at [ ]
  filter-Mem p (x ∷ xs) here h = rw h here
  filter-Mem p (x ∷ xs) (there at) h = elim (Bool-cases (p x)) [
    | inl kept ↦ rw kept (there (filter-Mem p xs at h))
    | inr left ↦ rw left (filter-Mem p xs at h)
  ]

  pub any-Mem : (p : A → Bool) (xs : List A) {a : A} → Mem a xs → any p xs ≡ false → p a ≡ false
  any-Mem p [] at h = elim at [ ]
  any-Mem p (x ∷ xs) here h = ground arith
  any-Mem p (x ∷ xs) (there at) h = any-Mem p xs at (ground arith)

module _ {A : Type 0} where
  head_or_tail : {x a : A} {xs : List A} → Mem a (x ∷ xs) → (x ≡ a) ⊎ Mem a xs
  head_or_tail here = inl refl
  head_or_tail (there at) = inr at

  -- What is left of a list was in it, and passed.
  pub filter-Mem_back :
      (p : A → Bool) (xs : List A) {a : A} → Mem a (filter_by p xs) → Mem a xs × (p a ≡ true)
  filter-Mem_back p [] at = elim at [ ]
  filter-Mem_back p (x ∷ xs) {a} at = elim (Bool-cases (p x)) [
    | inl passed ↦
        elim (head_or_tail
          (subst (λ b. Mem a (if b then x ∷ filter_by p xs else filter_by p xs)) passed at)) [
            | inl same ↦ subst (λ y. Mem y (x ∷ xs) × (p y ≡ true)) same (here, passed)
            | inr later ↦ let (stands, holds) = filter-Mem_back p xs later in (there stands, holds)
          ]
    | inr failed ↦
        let (stands, holds) =
          filter-Mem_back p xs
            (subst (λ b. Mem a (if b then x ∷ filter_by p xs else filter_by p xs)) failed at) in
        (there stands, holds)
  ]

pub map-Mem : {A B : Type 0} (f : A → B) (xs : List A) {a : A} → Mem a xs → Mem (f a) (map f xs)
map-Mem f [] at = elim at [ ]
map-Mem f (x ∷ xs) here = here
map-Mem f (x ∷ xs) (there at) = there (map-Mem f xs at)

module _ {A B : Type 0} (f : A → B) where
  all-map : (p : B → Bool) (xs : List A) → all p (map f xs) ≡ all (λ x. p (f x)) xs
  all-map p [] = refl
  all-map p (x ∷ xs) = ap (λ rest. p (f x) && rest) (all-map p xs)

  pub all_pairs-map :
      (p : B → B → Bool) (xs : List A)
      → all_pairs p (map f xs) ≡ all_pairs (λ x y. p (f x) (f y)) xs
  unfolding all_pairs
  all_pairs-map p [] = refl
  all_pairs-map p (x ∷ xs) = rw (all-map (p (f x)) xs, all_pairs-map p xs) refl

-- In a valid registry an identifier names one lane.
pub one_lane :
    (P : Platform) (state : RegistryState)
    → Valid P state
    → (a b : LaneRecord) → Mem a state.lanes
    → Mem b state.lanes
    → a.lane_id ≡ b.lane_id
    → a ≡ b
unfolding all_pairs all_distinct
one_lane P state valid a b at_a at_b same =
    elim (all_pairs-Mem (λ x y. not (x.lane_id == y.lane_id)) state.lanes
      (sym (all_pairs-map (λ lane. lane.lane_id) (λ x y. not (x == y)) state.lanes) ∙ valid.ids)
      at_a at_b) [
        | inl one ↦ one
        | inr (inl other) ↦ absurd (differ _ _ same other)
        | inr (inr other) ↦ absurd (differ _ _ (sym same) other)
      ]
  where
    differ : (x y : String) → x ≡ y → not (x == y) ≢ true
    differ x y e h = ground (arith, (string_eq.beq_iff x y).1 e)
