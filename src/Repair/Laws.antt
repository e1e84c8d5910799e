-- ===== src/Repair/Laws.antt =====
-- What is created for a repair passes the tests that read it back.
use tachiko_conductor.Prelude.{
  ℕ, String, string_eq, option_eq, option_beq_iff, Bool, true, false, not, ◌&&◌, ◌||◌, ◌==◌, ◌≡◌,
  ◌≢◌, refl, Option, none, some, Result, ok, ◌>>◌, reject, >>=-eq-ok, arith, if◌then◌else◌,
  is_blank,
}
use tachiko_conductor.Types.Names.{RepairFindingKind, profile_eq}
use tachiko_conductor.Types.Evidence.{ExecutorIdentity, ResolvedExecutionConfiguration}
use tachiko_conductor.Types.Repair.{
  RepairTaskShapeAuthority, RepairAttemptBinding, RepairAdmissionSnapshot,
}
use tachiko_conductor.Types.Run.{Run}
use tachiko_conductor.Repair.Identity.{
  identity_eq, IdentityError, resolve_repair_predecessor, result_session,
}
use tachiko_conductor.Repair.Handoff.{
  bind_attempt, create_repair_attempt_binding, is_attempt_binding_compatible, fresh_required,
  starts_fresh, lacks_generation, attempt_binding, identity_generation, unaddressable,
  generation_or, generation_conflicts, same_bool,
}
use tachiko_conductor.Repair.Snapshot.{
  create_repair_admission_snapshot, is_repair_admission_snapshot, is_repair_task_shape_authority,
  is_repair_profile, is_resolved_execution, profile_matches_shape, SnapshotError,
}
use tachiko_conductor.Validation.{is_positive_safe_integer}

one_guard-eq-ok :
    (a : Bool) {r s : RepairAttemptBinding}
    → ◌≡◌ {A = Result IdentityError RepairAttemptBinding}
        (reject a IdentityError.generation_missing >> ok r)
        (ok s)
    → (a ≡ false) × (s ≡ r)
one_guard-eq-ok false h = (refl, cc)
one_guard-eq-ok true h = cc

-- The two tests of the source for a fresh start agree.
starts_fresh-eq-fresh_required :
    (selected : String) (b : RepairAttemptBinding)
    → starts_fresh selected b.predecessor_executor b.predecessor_session_id
      ≡ fresh_required selected b
unfolding starts_fresh fresh_required
starts_fresh-eq-fresh_required selected b = go b.predecessor_executor
  where
    go :
        (predecessor : Option ExecutorIdentity)
        → starts_fresh selected predecessor b.predecessor_session_id
          ≡ fresh_required selected (record b { predecessor_executor = predecessor })
    go none = refl
    go (some p) = refl

-- A binding that does not continue a predecessor without its generation can be addressed.
lacks_generation-unaddressable :
    (selected : String) (b : RepairAttemptBinding)
    → (not b.fresh_executor && lacks_generation b.predecessor_executor selected) ≡ false
    → unaddressable selected b ≡ false
lacks_generation-unaddressable selected b = go b.predecessor_executor
  where
    go :
        (predecessor : Option ExecutorIdentity)
        → (not b.fresh_executor && lacks_generation predecessor selected) ≡ false
        → unaddressable selected (record b { predecessor_executor = predecessor }) ≡ false
    go none h = ground arith
    go (some p) h = ground (arith, h)

-- The generation of the binding agrees with that of the predecessor where it is continued, and differs
-- from it where it is not.
generation_parts :
    (fresh : Bool) (previous : Option String) (generation : String)
    → previous ≢ some generation
    → (not (
          not fresh
          && generation_conflicts previous
              (if fresh then generation else generation_or previous generation))
        ≡ true)
      × (not (
            fresh
            && previous == some (if fresh then generation else generation_or previous generation))
          ≡ true)
generation_parts true previous generation n =
    (refl, ground (arith, option_beq_iff previous (some generation), n))
generation_parts false none generation n = (refl, refl)
generation_parts false (some p) generation n = (ground (arith, string_eq.beq_iff p p), refl)

same_bool_refl : (a b : Bool) → a ≡ b → same_bool a b ≡ true
same_bool_refl true b h = ground arith
same_bool_refl false b h = ground arith

bind_attempt-compatible :
    (run : Run) (selected fresh_generation : String) (predecessor : Option ExecutorIdentity)
    {binding : RepairAttemptBinding}
    → identity_generation predecessor ≢ some fresh_generation
    → bind_attempt run selected fresh_generation predecessor ≡ ok binding
    → is_attempt_binding_compatible selected binding ≡ true
unfolding bind_attempt is_attempt_binding_compatible
bind_attempt-compatible run selected fresh_generation predecessor {binding} n h =
    let session = result_session run.agent_result in
    let fresh = starts_fresh selected predecessor session in
    let (u, e) = one_guard-eq-ok (not fresh && lacks_generation predecessor selected) h in
    let made = attempt_binding run selected fresh_generation predecessor in
    let (agrees, differs) =
      generation_parts fresh (identity_generation predecessor) fresh_generation n in
    rw e (
      four (same_bool_refl _ _ (starts_fresh-eq-fresh_required selected made))
        (lacks_generation-unaddressable selected made u) agrees differs)
  where
    four :
        {a b c d : Bool}
        → a ≡ true
        → b ≡ false
        → c ≡ true
        → d ≡ true
        → (a && not b && c && d) ≡ true
    four p q r s = ground (arith, p, q, r, s)

-- The binding that is created for a repair attempt is compatible with the executor that it was created
-- for, if the generation drawn for it is not that of the executor on record.
pub create_binding-compatible :
    (run : Run) (selected fresh_generation : String) {binding : RepairAttemptBinding}
    → ((predecessor : Option ExecutorIdentity)
        → resolve_repair_predecessor run.executor run.agent_result ≡ ok predecessor
        → identity_generation predecessor ≢ some fresh_generation)
    → create_repair_attempt_binding run selected fresh_generation ≡ ok binding
    → is_attempt_binding_compatible selected binding ≡ true
unfolding create_repair_attempt_binding
create_binding-compatible run selected fresh_generation n h =
    let (predecessor, resolves, bound) =
      >>=-eq-ok (resolve_repair_predecessor run.executor run.agent_result)
        (bind_attempt run selected fresh_generation) h in
    bind_attempt-compatible run selected fresh_generation predecessor (n predecessor resolves) bound

four_guards-eq-ok :
    (a b c d : Bool) {r s : RepairAdmissionSnapshot}
    → ◌≡◌ {A = Result SnapshotError RepairAdmissionSnapshot}
        (reject a SnapshotError.invalid_authority
          >> (reject b SnapshotError.inexact_head
              >> (reject c SnapshotError.unresolved_profile
                  >> (reject d SnapshotError.shape_mismatch >> ok r))))
        (ok s)
    → (a ≡ false) × (b ≡ false) × (c ≡ false) × (d ≡ false) × (s ≡ r)
four_guards-eq-ok false false false false h = (refl, refl, refl, refl, cc)
four_guards-eq-ok true b c d h = cc
four_guards-eq-ok false true c d h = cc
four_guards-eq-ok false false true d h = cc
four_guards-eq-ok false false false true h = cc

-- The receipt that is created to admit a repair is a valid receipt.
pub create_snapshot-valid :
    (valid_reference : String → Bool) (authority : RepairTaskShapeAuthority)
    (finding : RepairFindingKind) (head_sha : String) (number : ℕ)
    (execution : ResolvedExecutionConfiguration) (admitted_at : String)
    {snapshot : RepairAdmissionSnapshot}
    → create_repair_admission_snapshot authority finding head_sha number execution admitted_at
      ≡ ok snapshot
    → is_repair_admission_snapshot valid_reference snapshot ≡ true
unfolding create_repair_admission_snapshot is_repair_admission_snapshot is_resolved_execution
create_snapshot-valid valid authority finding head_sha number execution admitted_at h =
    let (a, b, c, d, e) =
      four_guards-eq-ok (not (is_repair_task_shape_authority authority))
        (is_blank head_sha || not (is_positive_safe_integer number))
        (not (is_repair_profile execution.profile) || not (is_resolved_execution execution))
        (not (profile_matches_shape authority.shape execution.profile)) h in
    rw e (
      ground (
        arith,
        a,
        b,
        c,
        d,
        (profile_eq.beq_iff execution.profile execution.profile).1 refl,
        (string_eq.beq_iff execution.revision execution.revision).1 refl,
      ))
