-- ===== src/Repair/Snapshot.antt =====
-- src/domain/repair-admission.ts: the receipt that admits a repair.
use Prim.Native.Char.{code}
use tachiko_conductor.Prelude.{
  ℕ, zero, suc, String, string_eq, Bool, true, false, not, ◌&&◌, ◌||◌, ◌==◌, Option, none, some,
  leb, Result, ok, ◌>>◌, reject, is_blank,
}
use tachiko_conductor.Types.Names.{TaskShape, RepairFindingKind, ExecutionProfile, profile_eq}
use tachiko_conductor.Types.Evidence.{ExecutorIdentity, ResolvedExecutionConfiguration}
use tachiko_conductor.Types.Repair.{
  RepairTaskShapeAuthority, RepairAttemptBinding, RepairAdmissionSnapshot,
}
use tachiko_conductor.Validation.{is_safe_integer, is_positive_safe_integer}
use tachiko_conductor.Repair.Identity.{absent_or_text, is_repair_executor_identity}
use tachiko_conductor.Repair.Handoff.{is_attempt_binding_compatible}

abbrev pub taxonomy : String
taxonomy = "repair-finding-taxonomy-v1"

pub data EscalationKind : Type 0 where
  decision_required complex_unavailable : EscalationKind

pub data RepairAdmissionDecision : Type 0 where
  admit : ExecutionProfile → RepairAdmissionDecision
  park : EscalationKind → RepairAdmissionDecision

unfoldable pub decide_repair_admission : RepairTaskShapeAuthority → RepairAdmissionDecision
decide_repair_admission authority = by_shape authority.shape
  where
    by_shape : TaskShape → RepairAdmissionDecision
    by_shape TaskShape.bounded = RepairAdmissionDecision.admit ExecutionProfile.routine
    by_shape TaskShape.interacting = RepairAdmissionDecision.admit ExecutionProfile.complex
    by_shape TaskShape.decision = RepairAdmissionDecision.park EscalationKind.decision_required

-- The members of the closed vocabulary are settled by the type.
abbrev pub is_repair_task_shape_authority : RepairTaskShapeAuthority → Bool
is_repair_task_shape_authority authority = not (is_blank authority.revision)

abbrev pub profile_matches_shape : TaskShape → ExecutionProfile → Bool
profile_matches_shape TaskShape.bounded ExecutionProfile.routine = true
profile_matches_shape TaskShape.interacting ExecutionProfile.complex = true
profile_matches_shape _ _ = false

abbrev pub is_repair_profile : ExecutionProfile → Bool
is_repair_profile ExecutionProfile.routine = true
is_repair_profile ExecutionProfile.complex = true
is_repair_profile _ = false

unfoldable pub is_resolved_execution : ResolvedExecutionConfiguration → Bool
is_resolved_execution e =
    not (is_blank e.revision) && not (is_blank e.executor) && is_positive_safe_integer e.timeout_ms

abbrev sessions_agree : Option ExecutorIdentity → Option String → Bool
sessions_agree (some p) (some s) = p.session_id == s
sessions_agree _ _ = true

abbrev absent_or_identity : Option ExecutorIdentity → Bool
absent_or_identity none = true
absent_or_identity (some i) = is_repair_executor_identity i

unfoldable pub is_repair_attempt_binding : RepairAttemptBinding → Bool
is_repair_attempt_binding b =
    is_safe_integer b.admission_index
    && is_safe_integer b.start_fix_history_index
    && absent_or_identity b.predecessor_executor
    && absent_or_text b.predecessor_session_id
    && sessions_agree b.predecessor_executor b.predecessor_session_id
    && not (is_blank b.runtime_generation)

-- `/^[0-9a-f]{64}$/`
abbrev is_hex_digit : ℕ → Bool
is_hex_digit c = leb b'0' c && leb c b'9' || leb b'a' c && leb c b'f'

hex_digits : ℕ → String → Bool
hex_digits zero String.[] = true
hex_digits (suc n) (String.◌∷◌ c s) = is_hex_digit (code c) && hex_digits n s
hex_digits _ _ = false

abbrev is_packet : Option String → Bool
is_packet none = false
is_packet (some s) = hex_digits 64 s

abbrev absent_or_positive : Option ℕ → Bool
absent_or_positive none = true
absent_or_positive (some n) = is_positive_safe_integer n

abbrev lead_disposition_valid : (String → Bool) → Option String → Option String → Bool
lead_disposition_valid valid none packet = true
lead_disposition_valid valid (some reference) packet = valid reference && is_packet packet

abbrev binding_valid : String → Option RepairAttemptBinding → Bool
binding_valid selected none = true
binding_valid selected (some b) =
    is_repair_attempt_binding b && is_attempt_binding_compatible selected b

-- `valid_reference` is `validLeadRepairReference`.
unfoldable pub is_repair_admission_snapshot : (String → Bool) → RepairAdmissionSnapshot → Bool
unfolding hex_digits
is_repair_admission_snapshot valid_reference s =
    not (is_blank s.authority_revision)
    && s.taxonomy_revision == taxonomy
    && not (is_blank s.head_sha)
    && is_positive_safe_integer s.pull_request_number
    && is_repair_profile s.execution_profile
    && profile_matches_shape s.task_shape s.execution_profile
    && not (is_blank s.execution_revision)
    && is_resolved_execution s.execution
    && s.execution.profile == s.execution_profile
    && s.execution.revision == s.execution_revision
    && absent_or_positive s.budget_limit
    && lead_disposition_valid valid_reference s.lead_disposition s.packet_sha256
    && binding_valid s.execution.executor s.attempt_binding

pub data SnapshotError : Type 0 where
  invalid_authority inexact_head unresolved_profile shape_mismatch : SnapshotError

unfoldable pub create_repair_admission_snapshot :
    RepairTaskShapeAuthority
    → RepairFindingKind
    → (head_sha : String) (pull_request_number : ℕ) → ResolvedExecutionConfiguration
    → (admitted_at : String) → Result SnapshotError RepairAdmissionSnapshot
create_repair_admission_snapshot authority finding head_sha number execution admitted_at = do
  reject (not (is_repair_task_shape_authority authority)) SnapshotError.invalid_authority
  reject (is_blank head_sha || not (is_positive_safe_integer number)) SnapshotError.inexact_head
  reject (not (is_repair_profile execution.profile) || not (is_resolved_execution execution))
      SnapshotError.unresolved_profile
  reject (not (profile_matches_shape authority.shape execution.profile))
      SnapshotError.shape_mismatch
  ok (record {
    lead_disposition = none;
    packet_sha256 = none;
    budget_limit = none;
    authority_revision = authority.revision;
    task_shape = authority.shape;
    taxonomy_revision = taxonomy;
    finding = finding;
    head_sha = head_sha;
    pull_request_number = number;
    execution_profile = execution.profile;
    execution_revision = execution.revision;
    execution = execution;
    admitted_at = admitted_at;
    attempt_binding = none;
  })
