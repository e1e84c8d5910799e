-- ===== src/Repair/Handoff.antt =====
-- src/domain/repair-admission.ts: the binding of a repair attempt to its predecessor, and the
-- executors that the attempt may be handed to.
use tachiko_conductor.Prelude.{
  ℕ, String, string_eq, option_eq, Bool, true, false, not, ◌&&◌, ◌||◌, ◌==◌, Option, none, some,
  List, length, Result, ok, ◌>>=◌, ◌>>◌, reject, ◌>>=◌, ◌>>◌, if◌then◌else◌,
}
use tachiko_conductor.Types.Evidence.{ExecutorIdentity}
use tachiko_conductor.Types.Repair.{RepairAttemptBinding, RepairExecutorHandoff}
use tachiko_conductor.Types.Run.{Run}
use tachiko_conductor.Repair.Identity.{
  identity_eq, result_session, no_generation, IdentityError, resolve_repair_predecessor,
}

abbrev pub worker_router : String
worker_router = "worker-router"

abbrev pub luna_isolated : String
luna_isolated = "luna-isolated"

abbrev pub codex_cli : String
codex_cli = "codex-cli"

abbrev pub codex_app_server : String
codex_app_server = "codex-app-server"

-- Whether the identity's provider is one that the selected provider runs as.
provider_matches : (selected provider : String) → Bool
provider_matches selected provider =
    if selected == luna_isolated
    then provider == codex_cli
    else if selected == codex_cli
    then provider == codex_cli || provider == codex_app_server
    else provider == selected

-- `optional !== undefined && optional !== value`
abbrev bound_to_other_identity : Option ExecutorIdentity → ExecutorIdentity → Bool
bound_to_other_identity none i = false
bound_to_other_identity (some p) i = not (p == i)

abbrev bound_to_other_session : Option String → String → Bool
bound_to_other_session none s = false
bound_to_other_session (some p) s = not (p == s)

abbrev previous_is_same : Option RepairExecutorHandoff → ExecutorIdentity → Bool
previous_is_same none i = true
previous_is_same (some (RepairExecutorHandoff.executor p)) i = p == i
previous_is_same (some RepairExecutorHandoff.sessionless) i = false

abbrev previous_is_sessionless : Option RepairExecutorHandoff → Bool
previous_is_sessionless (some (RepairExecutorHandoff.executor p)) = false
previous_is_sessionless _ = true

unfoldable pub is_repair_handoff_compatible :
    String → RepairAttemptBinding → RepairExecutorHandoff → Option RepairExecutorHandoff → Bool
unfolding provider_matches
is_repair_handoff_compatible selected binding RepairExecutorHandoff.sessionless previous =
    selected == worker_router && previous_is_sessionless previous
is_repair_handoff_compatible selected binding (RepairExecutorHandoff.executor i) previous =
    not (selected == worker_router || i.provider == worker_router)
    && provider_matches selected i.provider
    && not (i.provider == codex_app_server && not (i.generation == some binding.runtime_generation))
    && (binding.fresh_executor
        || not (bound_to_other_identity binding.predecessor_executor i)
          && not (bound_to_other_session binding.predecessor_session_id i.session_id))
    && previous_is_same previous i

-- `priorProviderCompatible` of `createRepairAttemptBinding`
abbrev pub prior_provider_compatible : Option ExecutorIdentity → String → Bool
prior_provider_compatible none executor = false
prior_provider_compatible (some p) executor =
    p.provider == executor || p.provider == codex_app_server && executor == codex_cli

-- `fresh` of `createRepairAttemptBinding`
unfoldable pub starts_fresh : String → Option ExecutorIdentity → Option String → Bool
starts_fresh executor predecessor session =
    executor == luna_isolated
    || executor == worker_router
    || not (predecessor == none) && not (prior_provider_compatible predecessor executor)
    || predecessor == none && not (session == none)

-- The predecessor for which `createRepairAttemptBinding` throws, where it does not start afresh.
abbrev pub lacks_generation : Option ExecutorIdentity → String → Bool
lacks_generation none executor = false
lacks_generation (some p) executor =
    p.provider == codex_app_server
    && (executor == codex_cli || executor == codex_app_server)
    && no_generation p.generation

abbrev pub identity_generation : Option ExecutorIdentity → Option String
identity_generation none = none
identity_generation (some p) = p.generation

abbrev pub generation_or : Option String → String → String
generation_or none fresh = fresh
generation_or (some g) fresh = g

abbrev pub admissions_length {ℓ} : {A : Type ℓ} → Option (List A) → ℕ
admissions_length none = 0
admissions_length (some l) = length l

-- The binding that is returned. `fresh_generation` is the text `repair-<uuid>` that the source draws
-- where it needs one.
abbrev pub attempt_binding :
    Run → (selected fresh_generation : String) → Option ExecutorIdentity → RepairAttemptBinding
attempt_binding run selected fresh_generation predecessor =
    let session = result_session run.agent_result in
    let fresh = starts_fresh selected predecessor session in
    record {
      admission_index = admissions_length run.repair_admissions;
      start_fix_history_index = length run.history;
      predecessor_executor = predecessor;
      predecessor_session_id = session;
      fresh_executor = fresh;
      runtime_generation =
          if fresh
          then fresh_generation
          else generation_or (identity_generation predecessor) fresh_generation;
    }

-- The binding for a predecessor that is resolved.
unfoldable pub bind_attempt :
    Run
    → (selected fresh_generation : String) → Option ExecutorIdentity
    → Result IdentityError RepairAttemptBinding
bind_attempt run selected fresh_generation predecessor =
    reject
      (not (starts_fresh selected predecessor (result_session run.agent_result))
        && lacks_generation predecessor selected)
      IdentityError.generation_missing
    >> ok (attempt_binding run selected fresh_generation predecessor)

unfoldable pub create_repair_attempt_binding :
    Run → (selected fresh_generation : String) → Result IdentityError RepairAttemptBinding
create_repair_attempt_binding run selected fresh_generation =
    resolve_repair_predecessor run.executor run.agent_result
    >>= bind_attempt run selected fresh_generation

abbrev pub same_bool : Bool → Bool → Bool
same_bool true b = b
same_bool false b = not b

abbrev pub generation_conflicts : Option String → String → Bool
generation_conflicts none g = false
generation_conflicts (some p) g = not (p == g)

abbrev pub identity_provider : Option ExecutorIdentity → Option String
identity_provider none = none
identity_provider (some p) = some p.provider

-- `continuationCompatible` of `isAttemptBindingCompatible`
abbrev pub continuation_compatible : (predecessor : Option String) → String → Bool
continuation_compatible predecessor selected =
    predecessor == some selected || predecessor == some codex_app_server && selected == codex_cli

-- `freshRequired` of `isAttemptBindingCompatible`
unfoldable pub fresh_required : String → RepairAttemptBinding → Bool
fresh_required selected b =
    let predecessor = identity_provider b.predecessor_executor in
    selected == luna_isolated
    || selected == worker_router
    || not (predecessor == none) && not (continuation_compatible predecessor selected)
    || predecessor == none && not (b.predecessor_session_id == none)

-- A predecessor of the app server that the binding continues without its generation.
abbrev pub unaddressable : String → RepairAttemptBinding → Bool
unaddressable selected b =
    not b.fresh_executor
    && identity_provider b.predecessor_executor == some codex_app_server
    && (selected == codex_cli || selected == codex_app_server)
    && no_generation (identity_generation b.predecessor_executor)

unfoldable pub is_attempt_binding_compatible : String → RepairAttemptBinding → Bool
is_attempt_binding_compatible selected b =
    same_bool b.fresh_executor (fresh_required selected b)
    && not (unaddressable selected b)
    && not (
        not b.fresh_executor
        && generation_conflicts (identity_generation b.predecessor_executor) b.runtime_generation)
    && not (
        b.fresh_executor && identity_generation b.predecessor_executor == some b.runtime_generation)
