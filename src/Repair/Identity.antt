-- ===== src/Repair/Identity.antt =====
-- src/domain/repair-admission.ts: executor identities, and the predecessor of a repair.
use tachiko_conductor.Prelude.{
  String, string_eq, option_eq, option_beq_iff, Eq, Bool, true, false, not, ◌&&◌, ◌≡◌, ◌↔◌, ◌==◌,
  Option, none, some, Result, ok, ◌>>◌, reject, is_blank, arith,
}
use tachiko_conductor.Types.Evidence.{AgentResult, ExecutorIdentity}

abbrev pub same_identity : ExecutorIdentity → ExecutorIdentity → Bool
same_identity a b =
    a.provider == b.provider && a.session_id == b.session_id && a.generation == b.generation

pub same_identity_iff : (a b : ExecutorIdentity) → (same_identity a b ≡ true) ↔ (a ≡ b)
same_identity_iff a b = (
  λ h. ground (
    arith,
    string_eq.beq_iff a.provider b.provider,
    string_eq.beq_iff a.session_id b.session_id,
    option_beq_iff a.generation b.generation,
  ),
  λ h. ground (
    arith,
    string_eq.beq_iff a.provider b.provider,
    string_eq.beq_iff a.session_id b.session_id,
    option_beq_iff a.generation b.generation,
  ),
)

instance abbrev pub identity_eq : Eq ExecutorIdentity
identity_eq = record { beq = same_identity; beq_iff = same_identity_iff }

-- `sameRepairExecutorIdentity`, where `none` is `undefined`.
unfoldable pub same_repair_executor_identity :
    Option ExecutorIdentity → Option ExecutorIdentity → Bool
same_repair_executor_identity a b = a == b

-- `run.agentResult?.executor` and `run.agentResult?.sessionId`
abbrev pub result_executor : Option AgentResult → Option ExecutorIdentity
result_executor none = none
result_executor (some r) = r.executor

abbrev pub result_session : Option AgentResult → Option String
result_session none = none
result_session (some r) = r.session_id

-- `a ?? b`
abbrev pub or_else {ℓ} : {A : Type ℓ} → Option A → Option A → Option A
or_else none b = b
or_else (some a) b = some a

-- What `RepairAdmissionIdentityError` reports.
pub data IdentityError : Type 0 where
  executors_disagree session_disagrees generation_missing : IdentityError

disagree : Option ExecutorIdentity → Option ExecutorIdentity → Bool
disagree (some a) (some b) = not (a == b)
disagree _ _ = false

session_differs : Option ExecutorIdentity → Option String → Bool
session_differs (some p) (some s) = not (p.session_id == s)
session_differs _ _ = false

unfoldable pub resolve_repair_predecessor :
    Option ExecutorIdentity → Option AgentResult → Result IdentityError (Option ExecutorIdentity)
unfolding disagree session_differs
resolve_repair_predecessor executor result = do
  reject (disagree executor (result_executor result)) IdentityError.executors_disagree
  let predecessor = or_else executor (result_executor result)
  reject (session_differs predecessor (result_session result)) IdentityError.session_disagrees
  ok predecessor

-- `generation === undefined || generation.trim() === ''`
abbrev pub no_generation : Option String → Bool
no_generation none = true
no_generation (some g) = is_blank g

-- A text that may be absent and is not blank otherwise.
abbrev pub absent_or_text : Option String → Bool
absent_or_text none = true
absent_or_text (some s) = not (is_blank s)

unfoldable pub is_repair_executor_identity : ExecutorIdentity → Bool
is_repair_executor_identity i =
    not (is_blank i.provider) && not (is_blank i.session_id) && absent_or_text i.generation
