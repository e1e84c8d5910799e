-- ===== src/Wait/Delivery.antt =====
-- src/domain/wait.ts: how the wait ledger is kept bounded, and which of its wakes are still to be
-- delivered.
use tachiko_conductor.Prelude.{
  string_eq, option_eq, ℕ, Eq, Bool, true, not, ◌&&◌, ◌==◌, List, [], ◌∷◌, ◌++◌, includes,
  filter_by, take_last, if◌then◌else◌, ◌↔◌, ◌≡◌, arith, nat_eq,
}
use tachiko_conductor.Wait.Observation.{source_eq}
use tachiko_conductor.Wait.Classify.{change_eq, reason_eq}
use tachiko_conductor.Wait.Ledger.{WakeId, WaitRecordedWake, WaitLedger}
use tachiko_conductor.Wait.Advance.{max_surfaced_digests}

abbrev pub max_wait_observations : ℕ
max_wait_observations = 200

abbrev pub max_wait_wakes : ℕ
max_wait_wakes = 200

abbrev pub max_terminal_digests : ℕ
max_terminal_digests = 50

abbrev pub max_delivered_wake_ids : ℕ
max_delivered_wake_ids = 500

unfoldable pub bound_wait_ledger : WaitLedger → WaitLedger
bound_wait_ledger ledger = record ledger {
  observations = take_last max_wait_observations ledger.observations;
  wakes = take_last max_wait_wakes ledger.wakes;
  terminal_digests = take_last max_terminal_digests ledger.terminal_digests;
  surfaced_digests = take_last max_surfaced_digests ledger.surfaced_digests;
  delivered_wake_ids = take_last max_delivered_wake_ids ledger.delivered_wake_ids;
}

-- Two wakes have one identifier where all of its parts agree.
abbrev pub same_wake_id : WakeId → WakeId → Bool
same_wake_id a b =
    a.owner_run_id == b.owner_run_id
    && a.subject_id == b.subject_id
    && a.digest == b.digest
    && a.reason == b.reason
    && a.index == b.index

pub same_wake_id_iff : (a b : WakeId) → (same_wake_id a b ≡ true) ↔ (a ≡ b)
same_wake_id_iff a b =
    let owner = string_eq.beq_iff a.owner_run_id b.owner_run_id in
    let subject = string_eq.beq_iff a.subject_id b.subject_id in
    let digest = string_eq.beq_iff a.digest b.digest in
    (λ h. ground (arith, owner, subject, digest), λ h. ground (arith, owner, subject, digest))

instance abbrev pub wake_id_eq : Eq WakeId
wake_id_eq = record { beq = same_wake_id; beq_iff = same_wake_id_iff }

-- `[...new Set(values)]`: the first of each value.
abbrev pub distinct {ℓ} : {A : Type ℓ} ⦃e : Eq A⦄ → List A → List A → List A
distinct seen [] = []
distinct seen (x ∷ xs) =
    let skipped = distinct seen xs in
    let kept = distinct (x ∷ seen) xs in if includes x seen then skipped else x ∷ kept

unfoldable pub pending_wait_wakes : WaitLedger → List WaitRecordedWake
pending_wait_wakes ledger =
    filter_by (λ wake. not (includes wake.id ledger.delivered_wake_ids)) ledger.wakes

unfoldable pub mark_wait_wakes_delivered : WaitLedger → List WakeId → WaitLedger
mark_wait_wakes_delivered ledger ids = record ledger {
  delivered_wake_ids =
      take_last max_delivered_wake_ids (distinct [] (ledger.delivered_wake_ids ++ ids));
}
