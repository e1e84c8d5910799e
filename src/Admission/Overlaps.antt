-- ===== src/Admission/Overlaps.antt =====
-- The order of two pieces of evidence does not matter where they overlap.
use tachiko_conductor.Prelude.{
  string_eq, nat_eq, option_eq, Bool, true, false, ◌||◌, Option, none, some, List, [], ◌∷◌, any,
  ◌≡◌, refl, sym, inl, inr, arith, Bool-cases, Eq,
}
use tachiko_conductor.Admission.Types.{MissionEvidence, role_eq, lane_status_eq}
use tachiko_conductor.Admission.Platform.{Platform}
use tachiko_conductor.Admission.Evidence.{
  contains, surfaces, shared_physical_surface, same_item, overlaps,
}
use tachiko_conductor.Admission.Valid.{Mem, here, there}

module _ {A : Type 0} where
  any-true : (p : A → Bool) (xs : List A) → any p xs ≡ true → (x : A) × Mem x xs × (p x ≡ true)
  any-true p [] h = cc
  any-true p (x ∷ xs) h = elim (Bool-cases (p x)) [
    | inl holds ↦ (x, here, holds)
    | inr fails ↦ let (y, at, holds) = any-true p xs (ground arith) in (y, there at, holds)
  ]

  any-intro : (p : A → Bool) (xs : List A) {x : A} → Mem x xs → p x ≡ true → any p xs ≡ true
  any-intro p [] at h = elim at [ ]
  any-intro p (x ∷ xs) here h = ground arith
  any-intro p (x ∷ xs) (there at) h = ground (arith, any-intro p xs at h)

-- The order of the two does not matter where evidence overlaps.
shared-symmetric :
    (P : Platform) (a b : MissionEvidence)
    → shared_physical_surface P a b ≡ true
    → shared_physical_surface P b a ≡ true
unfolding shared_physical_surface
shared-symmetric P a b h =
    let (left, at_left, meets) = any-true _ (surfaces a) h in
    let (right, at_right, touch) = any-true _ (surfaces b) meets in
    any-intro _ (surfaces b) at_right (
      any-intro _ (surfaces a) at_left
        (or_swap (contains P left right) (contains P right left) touch))
  where
    or_swap : (x y : Bool) → (x || y) ≡ true → (y || x) ≡ true
    or_swap true y e = ground arith
    or_swap false y e = ground arith

same_item-symmetric :
    {A : Type 0} ⦃eq : Eq A⦄ (a b : Option A) → same_item a b ≡ true → same_item b a ≡ true
unfolding same_item
same_item-symmetric none b h = cc
same_item-symmetric (some a) none h = cc
same_item-symmetric ⦃eq⦄ (some a) (some b) h = (eq.beq_iff b a).1 (sym ((eq.beq_iff a b).0 h))

pub overlaps-symmetric :
    (P : Platform) (a b : MissionEvidence) → overlaps P a b ≡ true → overlaps P b a ≡ true
unfolding overlaps
overlaps-symmetric P a b h =
    or_map (shared_physical_surface P a b) (shared_physical_surface P b a) _ _
      (shared-symmetric P a b)
      (λ e. ground (
        arith,
        string_eq.beq_iff a.repository b.repository,
        string_eq.beq_iff b.repository a.repository,
        same_item-symmetric a.issue b.issue,
        same_item-symmetric a.pull_request b.pull_request,
        same_item-symmetric a.run b.run,
        same_item-symmetric a.claim b.claim,
        e,
      ))
      h
  where
    or_map :
        (x x' y y' : Bool)
        → (x ≡ true → x' ≡ true)
        → (y ≡ true → y' ≡ true)
        → (x || y) ≡ true
        → (x' || y') ≡ true
    or_map true x' y y' f g e = ground (arith, f refl)
    or_map false x' y y' f g e = ground (arith, g e)
