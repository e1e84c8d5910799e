-- ===== src/Native.antt =====
-- What the run's state machine asks of the native review and lead (src/oracle/native-reviewer.ts and
-- src/oracle/native-lead.ts). Those modules are not modelled: their answers about a run are a
-- parameter of the state machine, and no law is assumed of them.
use tachiko_conductor.Prelude.{String, Bool, Option}
use tachiko_conductor.Types.Evidence.{ReviewResult}
use tachiko_conductor.Types.Run.{Run, NativeLeadStopReference}

pub record Native : Type 0 where
  -- nativeReviewCoherent, nativeLeadCoherent, unresolvedNativeRepairHistory
  pub review_coherent : Run → Bool
  pub lead_coherent : Run → Bool
  pub unresolved_history : Run → Bool
  -- authenticatedReviewMatches
  pub review_matches : Run → Option ReviewResult → Bool
  -- leadConsumptionValid
  pub consumption_valid : Run → Option String → Bool
  -- the references of acceptedNativeLead, where its disposition is `stop`
  pub accepted_stop : Run → Option NativeLeadStopReference
  -- validLeadRepairReference
  pub valid_reference : String → Bool
