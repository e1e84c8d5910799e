-- ===== src/Types/Names.antt =====
-- src/domain/types.ts: the closed vocabularies.
use tachiko_conductor.Prelude.{Eq, discrete_eq}

pub data WorkflowState : Type 0 where
  ready implementing validating reviewing changes_requested : WorkflowState
  final_gate merge_ready merged waiting_dependency needs_human failed : WorkflowState

abbrev pub WorkflowState-discrete : Discrete WorkflowState
WorkflowState-discrete = hlevel

instance abbrev pub state_eq : Eq WorkflowState
state_eq = discrete_eq WorkflowState-discrete

pub data TransitionType : Type 0 where
  start bootstrap_prepared agent_succeeded agent_failed : TransitionType
  validation_passed validation_failed review_approved changes_requested : TransitionType
  start_fix repair_executor_handoff repair_executor_continued : TransitionType
  revalidate recheck_readiness gate_blocked merged : TransitionType
  wait_dependency dependency_satisfied escalate human_resolved fail : TransitionType

abbrev pub TransitionType-discrete : Discrete TransitionType
TransitionType-discrete = hlevel

instance abbrev pub type_eq : Eq TransitionType
type_eq = discrete_eq TransitionType-discrete

-- The types that stand in a run's history: a transition's, or one of the two that only the
-- workflow's own authority and old records carry.
pub data RecordType : Type 0 where
  transition : TransitionType → RecordType
  final_gate_verified gate_passed : RecordType

pub data AgentExitStatus : Type 0 where
  success failure : AgentExitStatus

abbrev pub AgentExitStatus-discrete : Discrete AgentExitStatus
AgentExitStatus-discrete = hlevel

instance abbrev pub exit_eq : Eq AgentExitStatus
exit_eq = discrete_eq AgentExitStatus-discrete

pub data ReviewVerdict : Type 0 where
  approve request_changes : ReviewVerdict

abbrev pub ReviewVerdict-discrete : Discrete ReviewVerdict
ReviewVerdict-discrete = hlevel

instance abbrev pub verdict_eq : Eq ReviewVerdict
verdict_eq = discrete_eq ReviewVerdict-discrete

pub data Severity : Type 0 where
  blocking non_blocking : Severity

pub data ValidationStatus : Type 0 where
  passed failed waiting unknown : ValidationStatus

abbrev pub ValidationStatus-discrete : Discrete ValidationStatus
ValidationStatus-discrete = hlevel

instance abbrev pub status_eq : Eq ValidationStatus
status_eq = discrete_eq ValidationStatus-discrete

-- `Exclude<ValidationStatus, 'waiting'>`
pub data LocalStatus : Type 0 where
  passed failed unknown : LocalStatus

-- `ValidationStatus | 'not_required'`
pub data HostedStatus : Type 0 where
  passed failed waiting unknown not_required : HostedStatus

abbrev pub HostedStatus-discrete : Discrete HostedStatus
HostedStatus-discrete = hlevel

instance abbrev pub hosted_eq : Eq HostedStatus
hosted_eq = discrete_eq HostedStatus-discrete

pub data CommandOutcome : Type 0 where
  passed failed timed_out unavailable malformed : CommandOutcome

pub data Availability : Type 0 where
  available unavailable : Availability

pub data HostedOverall : Type 0 where
  pending passing failing unknown unavailable : HostedOverall

pub data PolicyMode : Type 0 where
  required not_required unconfigured : PolicyMode

pub data InterruptKind : Type 0 where
  needs_human waiting_dependency : InterruptKind

pub data BootstrapKind : Type 0 where
  linked_worktree standalone_isolated : BootstrapKind

-- src/domain/repair-admission.ts
pub data TaskShape : Type 0 where
  bounded interacting decision : TaskShape

abbrev pub TaskShape-discrete : Discrete TaskShape
TaskShape-discrete = hlevel

instance abbrev pub shape_eq : Eq TaskShape
shape_eq = discrete_eq TaskShape-discrete

pub data RepairFindingKind : Type 0 where
  review_blocking validation_failed : RepairFindingKind

abbrev pub RepairFindingKind-discrete : Discrete RepairFindingKind
RepairFindingKind-discrete = hlevel

instance abbrev pub finding_eq : Eq RepairFindingKind
finding_eq = discrete_eq RepairFindingKind-discrete

-- src/execution-profiles.ts
pub data ExecutionProfile : Type 0 where
  routine standard complex critical : ExecutionProfile

abbrev pub ExecutionProfile-discrete : Discrete ExecutionProfile
ExecutionProfile-discrete = hlevel

instance abbrev pub profile_eq : Eq ExecutionProfile
profile_eq = discrete_eq ExecutionProfile-discrete
