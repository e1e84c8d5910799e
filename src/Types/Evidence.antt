-- ===== src/Types/Evidence.antt =====
-- src/domain/types.ts: targets, and the results that agents, reviewers and validations report.
-- Provider telemetry (src/domain/telemetry.ts) is carried as its serialized text.
use tachiko_conductor.Prelude.{ℕ, String, Option, List}
use tachiko_conductor.Types.Names.{
  AgentExitStatus, ReviewVerdict, Severity, ValidationStatus, LocalStatus, HostedStatus,
  CommandOutcome, Availability, HostedOverall, PolicyMode, BootstrapKind, ExecutionProfile,
}

pub data Target : Type 0 where
  issue : (owner repo : String) (issue_number : ℕ) → Target
  repository : (owner repo branch : String) (publication_branch : Option String) → Target

pub record ImplementationBootstrapIdentity : Type 0 where
  pub bootstrap_kind : BootstrapKind
  pub owner : String
  pub repo : String
  pub issue_number : ℕ
  pub base_branch : String
  pub base_sha : String
  pub branch : String
  pub publication_branch : Option String
  pub workspace_path : String

pub record ImplementationPullRequestIdentity : Type 0 where
  pub number : ℕ
  pub head_sha : String

pub record ExecutorIdentity : Type 0 where
  pub provider : String
  pub session_id : String
  pub generation : Option String

pub record AgentResult : Type 0 where
  pub exit_status : AgentExitStatus
  pub summary : String
  pub head_sha : Option String
  pub changed_files : Option (List String)
  pub diagnostics : Option (List String)
  pub executor : Option ExecutorIdentity
  pub session_id : Option String
  pub duration_ms : Option ℕ
  pub telemetry : Option String

pub record ReviewFinding : Type 0 where
  pub severity : Severity
  pub summary : String
  pub detail : Option String

pub record ReviewResult : Type 0 where
  pub verdict : ReviewVerdict
  pub reviewer_name : String
  pub head_sha : String
  pub findings : List ReviewFinding
  pub telemetry : Option String

-- An exit code is a number that is not negative, as the operating system reports it.
pub record LocalValidationCommandEvidence : Type 0 where
  pub command_index : ℕ
  pub executable : String
  pub outcome : CommandOutcome
  pub exit_code : Option ℕ
  pub duration_ms : ℕ

pub record LocalValidationEvidence : Type 0 where
  pub status : LocalStatus
  pub config_revision : Option String
  pub commands : List LocalValidationCommandEvidence

pub record HostedValidationEvidence : Type 0 where
  pub status : HostedStatus
  pub observed_at : String
  pub pull_request_number : Option ℕ
  pub availability : Availability
  pub overall : HostedOverall
  pub policy_revision : Option String
  pub policy_mode : PolicyMode
  pub required_check_names : List String
  pub observed_check_names : List String

pub record ValidationResult : Type 0 where
  pub head_sha : String
  pub status : ValidationStatus
  pub local : LocalValidationEvidence
  pub hosted : HostedValidationEvidence

-- src/execution-profiles.ts
pub record ResolvedExecutionConfiguration : Type 0 where
  pub profile : ExecutionProfile
  pub revision : String
  pub executor : String
  pub model : Option String
  pub reasoning_effort : Option String
  pub timeout_ms : ℕ
  pub sandbox_mode : Option String
  pub approval_policy : Option String
