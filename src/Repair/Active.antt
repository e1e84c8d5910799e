-- ===== src/Repair/Active.antt =====
-- src/domain/repair-admission.ts: the receipt that authorizes the repair in progress.
use tachiko_conductor.Prelude.{
  ℕ, suc, String, string_eq, nat_eq, option_eq, Bool, true, false, not, ◌&&◌, ◌==◌, Option, none,
  some, List, [], ◌∷◌, ok, err, any, drop, get_elem?, if◌then◌else◌,
}
use tachiko_conductor.Types.Names.{
  WorkflowState, state_eq, TransitionType, RecordType, ReviewVerdict, verdict_eq, ValidationStatus,
  status_eq, RepairFindingKind, finding_eq, shape_eq,
}
use tachiko_conductor.Types.Evidence.{
  ExecutorIdentity, ImplementationPullRequestIdentity, ReviewResult, ValidationResult,
}
use tachiko_conductor.Types.Repair.{
  RepairTaskShapeAuthority, RepairAttemptBinding, RepairAdmissionSnapshot, RepairExecutorHandoff,
  RepairHandoffRecord,
}
use tachiko_conductor.Types.Run.{Run, TransitionRecord}
use tachiko_conductor.Repair.Identity.{
  identity_eq, same_repair_executor_identity, result_executor, result_session,
  resolve_repair_predecessor,
}
use tachiko_conductor.Validation.{is_safe_integer}
use tachiko_conductor.Repair.Snapshot.{is_repair_admission_snapshot}

abbrev pub is_start_fix : RecordType → WorkflowState → WorkflowState → Bool
is_start_fix (RecordType.transition TransitionType.start_fix) WorkflowState.changes_requested
      WorkflowState.implementing =
    true
is_start_fix _ _ _ = false

abbrev pub starts_fix : TransitionRecord → Bool
starts_fix e = is_start_fix e.type e.from e.to

abbrev pub is_agent_outcome : RecordType → Bool
is_agent_outcome (RecordType.transition TransitionType.agent_succeeded) = true
is_agent_outcome (RecordType.transition TransitionType.agent_failed) = true
is_agent_outcome _ = false

abbrev pub ends_attempt : TransitionRecord → Bool
ends_attempt e = is_agent_outcome e.type

-- The last element that passes the test, with its index: the loop that counts down from the end.
-- `index` is that of the head.
pub find_last {ℓ} : {A : Type ℓ} → (A → Bool) → ℕ → List A → Option (ℕ × A)
find_last p index [] = none
find_last p index (x ∷ xs) = elim (find_last p (suc index) xs) [
  | some found ↦ some found
  | none ↦ if p x then some (index, x) else none
]

abbrev pub all_admissions : Option (List RepairAdmissionSnapshot) → List RepairAdmissionSnapshot
all_admissions none = []
all_admissions (some l) = l

-- The last start of a repair that no agent outcome has ended.
unfoldable pub unfinished_start : List TransitionRecord → Option (ℕ × TransitionRecord)
unfolding find_last
unfinished_start history = elim (find_last starts_fix 0 history) [
  | none ↦ none
  | some (i, e) ↦ if any ends_attempt (drop (suc i) history) then none else some (i, e)
]

-- What the receipt must agree with: the marker, the start, the authority, and the exact HEAD and
-- pull request.
receipt_matches :
    (String → Bool)
    → (marker start : ℕ) → RepairTaskShapeAuthority
    → (head_sha : String) (number : ℕ) → RepairAdmissionSnapshot
    → RepairAttemptBinding
    → Bool
receipt_matches valid_reference marker start authority head_sha number s b =
    is_repair_admission_snapshot valid_reference s
    && b.admission_index == marker
    && b.start_fix_history_index == start
    && s.authority_revision == authority.revision
    && s.task_shape == authority.shape
    && s.head_sha == head_sha
    && s.pull_request_number == number

-- `validationResult?.status` is `failed`, and `reviewResult?.verdict` is `request_changes`.
abbrev pub validation_is_failed : Option ValidationResult → Bool
validation_is_failed none = false
validation_is_failed (some v) = v.status == ValidationStatus.failed

abbrev pub review_requests_changes : Option ReviewResult → Bool
review_requests_changes none = false
review_requests_changes (some r) = r.verdict == ReviewVerdict.request_changes

unfoldable pub expected_finding : Run → RepairFindingKind
expected_finding run =
    if validation_is_failed run.validation_result && not (review_requests_changes run.review_result)
    then RepairFindingKind.validation_failed
    else RepairFindingKind.review_blocking

abbrev review_at : Option ReviewResult → String → Bool
review_at none head = false
review_at (some r) head = r.verdict == ReviewVerdict.request_changes && r.head_sha == head

abbrev validation_at : Option ValidationResult → String → Bool
validation_at none head = false
validation_at (some v) head = v.status == ValidationStatus.failed && v.head_sha == head

-- The finding that was admitted is still the one on record, at the exact HEAD.
finding_current : Run → String → RepairFindingKind → Bool
finding_current run head RepairFindingKind.review_blocking =
    expected_finding run == RepairFindingKind.review_blocking && review_at run.review_result head
finding_current run head RepairFindingKind.validation_failed =
    expected_finding run == RepairFindingKind.validation_failed
    && validation_at run.validation_result head

abbrev is_handoff_type : RecordType → Bool
is_handoff_type (RecordType.transition TransitionType.repair_executor_handoff) = true
is_handoff_type (RecordType.transition TransitionType.repair_executor_continued) = true
is_handoff_type _ = false

abbrev handoff_of : ℕ → ℕ → Option RepairHandoffRecord → Bool
handoff_of admission start none = false
handoff_of admission start (some h) =
    h.admission_history_index == admission && h.start_fix_history_index == start

-- The last handoff that the attempt recorded.
last_handoff : (admission start : ℕ) → List TransitionRecord → Option RepairHandoffRecord
unfolding find_last
last_handoff admission start history =
    elim (find_last (λ e. is_handoff_type e.type && handoff_of admission start e.repair_handoff) 0
      history) [ none ↦ none | some (i, e) ↦ e.repair_handoff ]

abbrev session_absent_or : Option String → String → Bool
session_absent_or none id = true
session_absent_or (some s) id = s == id

-- The executor on record is the one that the attempt was handed to.
adopted_current : Run → RepairExecutorHandoff → Option ExecutorIdentity → Bool
adopted_current run RepairExecutorHandoff.sessionless predecessor =
    run.executor == none
    && result_executor run.agent_result == none
    && result_session run.agent_result == none
adopted_current run (RepairExecutorHandoff.executor i) predecessor =
    same_repair_executor_identity run.executor (some i)
    && same_repair_executor_identity predecessor (some i)
    && session_absent_or (result_session run.agent_result) i.session_id

-- Before a handoff the executor on record is the one that the attempt was bound to.
executor_current :
    Run → RepairAttemptBinding → Option RepairHandoffRecord → Option ExecutorIdentity → Bool
unfolding adopted_current
executor_current run binding none predecessor =
    same_repair_executor_identity predecessor binding.predecessor_executor
    && result_session run.agent_result == binding.predecessor_session_id
executor_current run binding (some h) predecessor = adopted_current run h.outcome predecessor

predecessor_current : Run → RepairAttemptBinding → Option RepairHandoffRecord → Bool
unfolding executor_current
predecessor_current run binding handoff =
    elim (resolve_repair_predecessor run.executor run.agent_result) [
      | ok predecessor ↦ executor_current run binding handoff predecessor
      | err e ↦ false
    ]

pub record ActiveRepair : Type 0 where
  pub snapshot : RepairAdmissionSnapshot
  pub binding : RepairAttemptBinding
  pub admission_history_index : ℕ
  pub start_fix_history_index : ℕ
  pub handoff : Option RepairHandoffRecord

module _ (valid_reference : String → Bool) (run : Run) where
  -- The receipt `s` with its binding, for the start of the repair at `start`.
  authorize :
      (authority : RepairTaskShapeAuthority) (head_sha : String)
      → ImplementationPullRequestIdentity
      → (start marker : ℕ) → RepairAdmissionSnapshot
      → Option RepairAttemptBinding
      → Option ActiveRepair
  unfolding receipt_matches finding_current predecessor_current last_handoff
  authorize authority head_sha pr start marker s none = none
  authorize authority head_sha pr start marker s (some b) =
      let handoff = last_handoff marker start run.history in
      if is_safe_integer marker
        && receipt_matches valid_reference marker start authority head_sha pr.number s b
        && finding_current run head_sha s.finding
        && predecessor_current run b handoff
      then some (record {
        snapshot = s;
        binding = b;
        admission_history_index = marker;
        start_fix_history_index = start;
        handoff = handoff;
      })
      else none

  -- The receipt that the start's marker points to.
  admitted :
      (authority : RepairTaskShapeAuthority) (head_sha : String)
      → ImplementationPullRequestIdentity
      → (start : ℕ) → Option ℕ
      → Option ActiveRepair
  unfolding authorize
  admitted authority head_sha pr start none = none
  admitted authority head_sha pr start (some marker) =
      elim (get_elem? (all_admissions run.repair_admissions) marker) [
        | none ↦ none
        | some s ↦ authorize authority head_sha pr start marker s s.attempt_binding
      ]

  with_identity :
      Option RepairTaskShapeAuthority
      → Option String
      → Option ImplementationPullRequestIdentity
      → Option ActiveRepair
  unfolding admitted
  with_identity (some authority) (some head_sha) (some pr) = elim (unfinished_start run.history) [
    | none ↦ none
    | some (start, e) ↦ admitted authority head_sha pr start e.repair_admission_index
  ]
  with_identity _ _ _ = none

  -- An entry of the receipts is told by its place, where the source takes `indexOf` of the object.
  unfoldable pub active_repair_admission : Option ActiveRepair
  unfolding with_identity
  active_repair_admission =
      if run.state == WorkflowState.implementing
      then with_identity run.repair_task_shape_authority run.head_sha run.pull_request
      else none
