-- ===== src/Wait/Wakes.antt =====
-- What changes the wait ledger, and that no two of its wakes are for one state.
use tachiko_conductor.Prelude.{
  String, string_eq, ℕ, zero, suc, Bool, true, false, not, ◌||◌, ◌&&◌, ◌==◌, ◌≡◌, refl, List, [],
  ◌∷◌, ◌++◌, map, any, drop, ok, arith, inl, inr, Bool-cases, Result, ◌>>◌, reject,
}
use tachiko_conductor.Wait.Observation.{WaitObservation, WaitDigests, wait_observation_digest}
use tachiko_conductor.Wait.Classify.{WaitWakeDecision}
use tachiko_conductor.Wait.Ledger.{WaitLedger, WaitRecordedWake}
use tachiko_conductor.Wait.Advance.{
  AdvanceInput, WaitLedgerAdvance, WaitLedgerError, next_ledger, advance_result,
  advance_wait_ledger, advance_woke_now, already_recorded, has_wake, wake_record, advance_decision,
  differs,
}
use tachiko_conductor.Wait.Delivery.{bound_wait_ledger, mark_wait_wakes_delivered}
use tachiko_conductor.Wait.Timeout.{record_wake, timeout_recorded, timeout_wake}
use tachiko_conductor.Wait.Migration.{stored, migrate_wait_ledger}

accepted-eq :
    (a b c : Bool) {r s : WaitLedgerAdvance}
    → ◌≡◌ {A = Result WaitLedgerError WaitLedgerAdvance}
        (reject a WaitLedgerError.foreign_owner
          >> reject b WaitLedgerError.foreign_generation
          >> reject c WaitLedgerError.foreign_subject
          >> ok r)
        (ok s)
    → s ≡ r
accepted-eq false false false h = cc
accepted-eq true b c h = cc
accepted-eq false true c h = cc
accepted-eq false false true h = cc

-- What an accepted advance is.
pub advance-eq-result :
    (digests : WaitDigests) (input : AdvanceInput) {advance : WaitLedgerAdvance}
    → advance_wait_ledger digests input ≡ ok advance
    → advance ≡ advance_result digests input
unfolding advance_wait_ledger
advance-eq-result digests input h =
    accepted-eq (differs input.expected_owner_run_id input.ledger.owner_run_id)
      (differs input.expected_generation input.ledger.generation)
      (not (input.ledger.subject_id == input.observation.subject_id)) h

-- Everything that changes a wait ledger: an observation that is accepted, a wake that is recorded when
-- the wait times out, bounding, delivery, and the adoption of the ledger that was written, when it is
-- read from the store again.
pub data Leads (digests : WaitDigests) : WaitLedger → WaitLedger → Type 0 where
  stays : {ledger : WaitLedger} → Leads digests ledger ledger
  advances :
      {first : WaitLedger} (input : AdvanceInput) (advance : WaitLedgerAdvance)
      → Leads digests first input.ledger
      → advance_wait_ledger digests input ≡ ok advance
      → Leads digests first advance.ledger
  records :
      {first ledger : WaitLedger} (observation : WaitObservation) (at : String)
      (decision : WaitWakeDecision)
      → Leads digests first ledger
      → Leads digests first (record_wake digests ledger observation at decision).ledger
  bounds :
      {first ledger : WaitLedger}
      → Leads digests first ledger
      → Leads digests first (bound_wait_ledger ledger)
  delivers :
      {first ledger : WaitLedger} (wakes : List WaitRecordedWake)
      → Leads digests first ledger
      → Leads digests first (mark_wait_wakes_delivered ledger (map (λ wake. wake.id) wakes))
  adopts :
      {first ledger : WaitLedger}
      → Leads digests first ledger
      → Leads digests first (migrate_wait_ledger (stored ledger))

-- No two of the wakes are for one state.
abbrev pub Distinct : List WaitRecordedWake → Type 0
Distinct [] = Unit {0}
Distinct (wake ∷ wakes) =
    (any (λ later. later.observation_digest == wake.observation_digest) wakes ≡ false)
    × Distinct wakes

any-snoc {ℓ} :
    {A : Type ℓ} (p : A → Bool) (xs : List A) (x : A) → any p (xs ++ x ∷ []) ≡ (any p xs || p x)
any-snoc p [] x = ground arith
any-snoc p (y ∷ xs) x = ground (arith, any-snoc p xs x)

Distinct-snoc :
    (wakes : List WaitRecordedWake) (wake : WaitRecordedWake)
    → Distinct wakes
    → any (λ earlier. earlier.observation_digest == wake.observation_digest) wakes ≡ false
    → Distinct (wakes ++ wake ∷ [])
Distinct-snoc [] wake d h = (refl, tt)
Distinct-snoc (first ∷ wakes) wake d h =
    let a = string_eq.beq_iff wake.observation_digest first.observation_digest in
    let b = string_eq.beq_iff first.observation_digest wake.observation_digest in
    let snoc =
      any-snoc (λ later. later.observation_digest == first.observation_digest) wakes wake in
    (ground (arith, a, b, snoc, d.0, h), Distinct-snoc wakes wake d.1 (ground (arith, h)))

Distinct-drop : (n : ℕ) (wakes : List WaitRecordedWake) → Distinct wakes → Distinct (drop n wakes)
Distinct-drop zero wakes d = d
Distinct-drop (suc n) [] d = d
Distinct-drop (suc n) (wake ∷ wakes) d = Distinct-drop n wakes d.1

-- An advance wakes only for a state that no wake is recorded for.
woke_now-fresh :
    (digests : WaitDigests) (input : AdvanceInput)
    → advance_woke_now digests input ≡ true
    → has_wake input.ledger (wait_observation_digest digests input.observation) ≡ false
unfolding advance_woke_now already_recorded
woke_now-fresh digests input h = ground arith

next_ledger-Distinct :
    (digests : WaitDigests) (input : AdvanceInput)
    → Distinct input.ledger.wakes
    → Distinct (next_ledger digests input).wakes
unfolding next_ledger
next_ledger-Distinct digests input d = elim (Bool-cases (advance_woke_now digests input)) [
  | inl woke ↦ rw woke (
      Distinct-snoc input.ledger.wakes (wake_record digests input (advance_decision digests input))
        d (woke_now-fresh digests input woke))
  | inr still ↦ rw still d
]

record_wake-Distinct :
    (digests : WaitDigests) (ledger : WaitLedger) (observation : WaitObservation) (at : String)
    (decision : WaitWakeDecision)
    → Distinct ledger.wakes
    → Distinct (record_wake digests ledger observation at decision).ledger.wakes
unfolding record_wake timeout_recorded
record_wake-Distinct digests ledger observation at decision d =
    let digest = wait_observation_digest digests observation in
    elim (Bool-cases (decision.should_wake && not (timeout_recorded ledger digest))) [
      | inl woke ↦ rw woke (
          Distinct-snoc ledger.wakes (timeout_wake digests ledger observation at decision) d
            (ground (arith, woke)))
      | inr still ↦ rw still d
    ]

pub result-ledger :
    (digests : WaitDigests) (input : AdvanceInput)
    → (advance_result digests input).ledger ≡ next_ledger digests input
unfolding advance_result
result-ledger digests input = refl

-- Whatever observations are accepted, and however timeouts are recorded and the ledger is bounded,
-- delivered and read from the store in between, no two of the wakes that it holds are for one state, if that is so at first.
pub Leads-Distinct :
    {digests : WaitDigests} {first last : WaitLedger}
    → Leads digests first last
    → Distinct first.wakes
    → Distinct last.wakes
unfolding bound_wait_ledger mark_wait_wakes_delivered migrate_wait_ledger stored
Leads-Distinct stays d = d
Leads-Distinct {digests} (advances input advance leads h) d =
    rw (advance-eq-result digests input h, result-ledger digests input)
      (next_ledger-Distinct digests input (Leads-Distinct leads d))
Leads-Distinct {digests} (records {ledger} observation at decision leads) d =
    record_wake-Distinct digests ledger observation at decision (Leads-Distinct leads d)
Leads-Distinct (bounds {ledger} leads) d = Distinct-drop _ ledger.wakes (Leads-Distinct leads d)
Leads-Distinct (delivers wakes leads) d = Leads-Distinct leads d
Leads-Distinct (adopts leads) d = Leads-Distinct leads d
