-- ===== src/Types/Repair.antt =====
-- The records of src/domain/repair-admission.ts. The lead's disposition belongs to
-- src/oracle/native-lead.ts and is carried as its serialized text.
use tachiko_conductor.Prelude.{ℕ, String, Option, Bool}
use tachiko_conductor.Types.Names.{TaskShape, RepairFindingKind, ExecutionProfile}
use tachiko_conductor.Types.Evidence.{ExecutorIdentity, ResolvedExecutionConfiguration}

pub record RepairTaskShapeAuthority : Type 0 where
  pub revision : String
  pub shape : TaskShape

pub record RepairAttemptBinding : Type 0 where
  pub admission_index : ℕ
  pub start_fix_history_index : ℕ
  pub predecessor_executor : Option ExecutorIdentity
  pub predecessor_session_id : Option String
  pub fresh_executor : Bool
  pub runtime_generation : String

pub record RepairAdmissionSnapshot : Type 0 where
  pub lead_disposition : Option String
  pub packet_sha256 : Option String
  pub budget_limit : Option ℕ
  pub authority_revision : String
  pub task_shape : TaskShape
  pub taxonomy_revision : String
  pub finding : RepairFindingKind
  pub head_sha : String
  pub pull_request_number : ℕ
  pub execution_profile : ExecutionProfile
  pub execution_revision : String
  pub execution : ResolvedExecutionConfiguration
  pub admitted_at : String
  pub attempt_binding : Option RepairAttemptBinding

-- The provider of a sessionless handoff is always the worker router.
pub data RepairExecutorHandoff : Type 0 where
  executor : ExecutorIdentity → RepairExecutorHandoff
  sessionless : RepairExecutorHandoff

pub record RepairHandoffRecord : Type 0 where
  pub admission_history_index : ℕ
  pub start_fix_history_index : ℕ
  pub outcome : RepairExecutorHandoff
