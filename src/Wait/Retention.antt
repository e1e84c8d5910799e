-- ===== src/Wait/Retention.antt =====
-- What the wait ledger keeps: bounded records, what the next observation is judged by, and the wakes that
-- are still to be delivered.
use tachiko_conductor.Prelude.{
  string_eq, suc, ◌+◌, ◌≤◌, Bool, true, not, ◌≡◌, refl, sym, ap, List, [], ◌∷◌, ◌++◌, map,
  filter_by, includes, length, length-append, take_last_all, arith, Eq, ◌⊎◌, inl, inr, Bool-cases,
}
use tachiko_conductor.Wait.Observation.{source_eq}
use tachiko_conductor.Wait.Ledger.{WaitLedger, WaitRecordedWake, WakeId}
use tachiko_conductor.Wait.Delivery.{
  pending_wait_wakes, mark_wait_wakes_delivered, wake_id_eq, distinct,
}

pub record IsBounded (ledger : WaitLedger) : Type 0 where
  pub observations : length ledger.observations ≤ 200
  pub wakes : length ledger.wakes ≤ 200
  pub terminal_digests : length ledger.terminal_digests ≤ 50
  pub surfaced_digests : length ledger.surfaced_digests ≤ 500
  pub delivered_wake_ids : length ledger.delivered_wake_ids ≤ 500

module _ {ℓ} {A : Type ℓ} ⦃e : Eq A⦄ where
  includes-append : (x : A) (xs ys : List A) → includes x ys ≡ true → includes x (xs ++ ys) ≡ true
  includes-append x [] ys h = h
  includes-append x (y ∷ xs) ys h = ground (arith, includes-append x xs ys h)

  includes-append_left :
      (x : A) (xs ys : List A) → includes x xs ≡ true → includes x (xs ++ ys) ≡ true
  includes-append_left x [] ys h = cc
  includes-append_left x (y ∷ xs) ys h = ground (arith, includes-append_left x xs ys)

  includes-same : (x y : A) (xs : List A) → e.beq y x ≡ true → includes x xs ≡ includes y xs
  includes-same x y xs h = let s : y ≡ x = (e.beq_iff y x).0 h in ap (λ z. includes z xs) (sym s)

  -- Only what is seen already is left out.
  includes-distinct :
      (x : A) (seen xs : List A)
      → includes x xs ≡ true
      → (includes x seen ≡ true) ⊎ (includes x (distinct seen xs) ≡ true)
  includes-distinct x seen [] h = cc
  includes-distinct x seen (y ∷ xs) h = ground (
    arith,
    includes-same x y seen,
    includes-distinct x seen xs,
    includes-distinct x (y ∷ seen) xs,
  )

  includes-later : (x y : A) (xs : List A) → includes x xs ≡ true → includes x (y ∷ xs) ≡ true
  includes-later x y xs h = ground (arith, h)

  kept : (x : A) (xs : List A) → includes x xs ≡ true → includes x (distinct [] xs) ≡ true
  kept x xs h = ground (arith, includes-distinct x [] xs h)

  length-distinct-le : (seen xs : List A) → length (distinct seen xs) ≤ length xs
  length-distinct-le seen [] = omega arith
  length-distinct-le seen (x ∷ xs) =
      ground (arith, length-distinct-le seen xs, length-distinct-le (x ∷ seen) xs)

  includes_self : (x : A) (xs : List A) → includes x (x ∷ xs) ≡ true
  includes_self x xs = ground (arith, (e.beq_iff x x).1 refl)

module _ {ℓ} {A : Type ℓ} where
  length-filter_by-le : (p : A → Bool) (xs : List A) → length (filter_by p xs) ≤ length xs
  length-filter_by-le p [] = omega arith
  length-filter_by-le p (x ∷ xs) = ground (arith, length-filter_by-le p xs)

length-map {ℓ κ} :
    {A : Type ℓ} {B : Type κ} (f : A → B) (xs : List A) → length (map f xs) ≡ length xs
length-map f [] = refl
length-map f (x ∷ xs) = ap suc (length-map f xs)

abbrev ids : List WaitRecordedWake → List WakeId
ids wakes = map (λ wake. wake.id) wakes

abbrev outside : List WakeId → List WaitRecordedWake → List WaitRecordedWake
outside delivered wakes = filter_by (λ wake. not (includes wake.id delivered)) wakes

-- Nothing is left once all that was outside is inside.
outside-nothing :
    (before after : List WakeId) (wakes : List WaitRecordedWake)
    → ((id : WakeId) → includes id before ≡ true → includes id after ≡ true)
    → ((id : WakeId) → includes id (ids (outside before wakes)) ≡ true → includes id after ≡ true)
    → outside after wakes ≡ []
outside-nothing before after [] old new = refl
outside-nothing before after (wake ∷ wakes) old new =
    let self = includes_self wake.id (ids (outside before wakes)) in
    elim (Bool-cases (includes wake.id before)) [
      | inl inside ↦
          rw (old wake.id inside)
            (outside-nothing before after wakes old (λ id h. new id (rw inside h)))
      | inr fresh ↦ rw (new wake.id (rw fresh self)) (
          outside-nothing before after wakes old
            (λ id h. new id (rw fresh (includes-later id wake.id (ids (outside before wakes)) h))))
    ]

-- Delivering the wakes that are pending leaves none pending, as long as the ledger has no more than
-- 500 wakes and delivered identifiers together.
pub pending-mark_delivered :
    (ledger : WaitLedger)
    → length ledger.delivered_wake_ids + length ledger.wakes ≤ 500
    → pending_wait_wakes
        (mark_wait_wakes_delivered ledger (map (λ wake. wake.id) (pending_wait_wakes ledger)))
      ≡ []
unfolding pending_wait_wakes mark_wait_wakes_delivered
pending-mark_delivered ledger h =
    let old = ledger.delivered_wake_ids in
    let new = ids (outside old ledger.wakes) in
    let fewer : length (outside old ledger.wakes) ≤ length ledger.wakes =
      length-filter_by-le (λ wake. not (includes wake.id old)) ledger.wakes in
    let short : length (distinct [] (old ++ new)) ≤ 500 = omega (
      arith,
      length-distinct-le [] (old ++ new),
      length-append old new,
      length-map (λ wake. wake.id) (outside old ledger.wakes),
      fewer,
    ) in
    rw (take_last_all 500 (distinct [] (old ++ new)) short) (
      outside-nothing old (distinct [] (old ++ new)) ledger.wakes
        (λ id i. kept id (old ++ new) (includes-append_left id old new i))
        (λ id i. kept id (old ++ new) (includes-append id old new i)))
