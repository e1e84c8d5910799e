-- ===== src/Types/Run.antt =====
-- src/domain/types.ts: transitions, their payloads, and the run. The ledgers of the native review
-- and lead, the merge attempt and the implementation authority belong to src/oracle and
-- src/workflow and are carried as their serialized text, beside the fields that the state machine
-- reads.
use tachiko_conductor.Prelude.{ℕ, String, Option, List}
use tachiko_conductor.Types.Names.{WorkflowState, TransitionType, RecordType, InterruptKind}
use tachiko_conductor.Types.Evidence.{
  Target, ImplementationBootstrapIdentity, ImplementationPullRequestIdentity, ExecutorIdentity,
  AgentResult, ReviewResult, ValidationResult, ResolvedExecutionConfiguration,
}
use tachiko_conductor.Types.Repair.{
  RepairTaskShapeAuthority, RepairAdmissionSnapshot, RepairHandoffRecord,
}

pub record Interrupt : Type 0 where
  pub kind : InterruptKind
  pub reason : String
  pub created_at : String
  pub resolved_at : Option String
  pub evidence : Option String
  pub choices : Option (List String)

pub record NativeLeadStopReference : Type 0 where
  pub request_id : String
  pub receipt_id : String
  pub digest : String

pub record TransitionRecord : Type 0 where
  pub native_lead_stop : Option NativeLeadStopReference
  pub type : RecordType
  pub from : WorkflowState
  pub to : WorkflowState
  pub at : String
  pub reason : Option String
  pub repair_handoff : Option RepairHandoffRecord
  pub repair_admission_index : Option ℕ

pub record InterruptInput : Type 0 where
  pub evidence : Option String
  pub choices : Option (List String)

pub record TransitionInput : Type 0 where
  pub native_lead_stop : Option NativeLeadStopReference
  pub type : TransitionType
  pub reason : Option String
  pub agent_result : Option AgentResult
  pub review_result : Option ReviewResult
  pub validation_result : Option ValidationResult
  pub head_sha : Option String
  pub executor : Option ExecutorIdentity
  pub repair_admission : Option RepairAdmissionSnapshot
  pub repair_agent_result : Option AgentResult
  pub bootstrap : Option ImplementationBootstrapIdentity
  pub pull_request : Option ImplementationPullRequestIdentity
  pub interrupt : Option InterruptInput

pub record NativeReview : Type 0 where
  pub repair_limit : Option ℕ
  pub ledger : String

-- The part of src/domain/telemetry.ts that a transition touches. An event that another part of the
-- program records is its identity and the rest as serialized text. The identity of a wait event,
-- in the source the text `wait:<run>:<length of the history>:<state>`, is kept as its parts.
pub data EventId : Type 0 where
  wait : (run_id : String) (history_length : ℕ) (state : WorkflowState) → EventId
  other : String → EventId

pub data TelemetryEvent : Type 0 where
  wait_status_wakeup :
      (id : EventId) (at : String) (state : WorkflowState) (head_sha : Option String)
      → TelemetryEvent
  other : (id : EventId) (body : String) → TelemetryEvent

pub record EfficiencyThresholds : Type 0 where
  pub revision : String
  pub repeated_unchanged_state_wakeups : ℕ
  pub reviewer_starts_at_same_head : ℕ
  pub large_tool_result_bytes : ℕ
  pub repeated_configuration_preflight_failures : ℕ
  pub reviewer_restarts : ℕ

pub data Coverage : Type 0 where
  complete partial : Coverage

pub record RunTelemetry : Type 0 where
  pub coverage : Coverage
  pub thresholds : EfficiencyThresholds
  pub events : List TelemetryEvent

pub record Run : Type 0 where
  pub id : String
  pub target : Target
  pub state : WorkflowState
  pub created_at : String
  pub updated_at : String
  pub dispatch_claim_id : Option String
  pub history : List TransitionRecord
  pub execution : Option ResolvedExecutionConfiguration
  pub repair_task_shape_authority : Option RepairTaskShapeAuthority
  pub implementation_authority : Option String
  pub repair_admissions : Option (List RepairAdmissionSnapshot)
  pub interrupted_from : Option WorkflowState
  pub interrupt : Option Interrupt
  pub agent_result : Option AgentResult
  pub executor : Option ExecutorIdentity
  pub bootstrap : Option ImplementationBootstrapIdentity
  pub pull_request : Option ImplementationPullRequestIdentity
  pub review_result : Option ReviewResult
  pub native_review : Option NativeReview
  pub native_lead : Option String
  pub merge_attempt : Option String
  pub validation_result : Option ValidationResult
  pub head_sha : Option String
  pub telemetry : Option RunTelemetry
