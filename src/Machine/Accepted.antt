-- ===== src/Machine/Accepted.antt =====
-- What a transition that `applyTransition` accepts has been checked for, and the fields of the
-- snapshot that it returns.
use tachiko_conductor.Prelude.{String, Option, ◌≡◌, sym, subst, ok, >>=-eq-ok, >>-eq-ok}
use tachiko_conductor.Types.Names.{WorkflowState}
use tachiko_conductor.Types.Repair.{RepairHandoffRecord}
use tachiko_conductor.Types.Run.{TransitionInput, Run}
use tachiko_conductor.Telemetry.{record_wait_telemetry}
use tachiko_conductor.Native.{Native}
use tachiko_conductor.Machine.Table.{TransitionTarget, transition_table}
use tachiko_conductor.Machine.Freshness.{ActiveValidationConfiguration}
use tachiko_conductor.Machine.Errors.{Checked}
use tachiko_conductor.Machine.Payload.{
  assert_required, assert_lead, assert_admission, assert_handoff,
}
use tachiko_conductor.Machine.Evidence.{
  assert_expected, assert_validation, assert_bootstrap, assert_pull_request, assert_executor,
  assert_head, assert_agent, assert_review,
}
use tachiko_conductor.Machine.Snapshot.{Fields, finished-Fields}
use tachiko_conductor.Machine.Apply.{
  assert_payload, assert_native, table_target, next_state, next_run, adopt_handoff,
  recorded_handoff, apply_transition,
}

ok-injective : {a b : Run} → ◌≡◌ {A = Checked Run} (ok a) (ok b) → a ≡ b
ok-injective h = cc

module _ (native : Native) (run : Run) (input : TransitionInput) (now : String)
    (active : Option ActiveValidationConfiguration) where
  -- Every guard of `assertPayload` let the payload pass.
  pub record Admitted : Type 0 where
    pub required : assert_required run input ≡ ok tt
    pub lead : assert_lead native run input ≡ ok tt
    pub admission : assert_admission native run input ≡ ok tt
    pub handed : assert_handoff native run input ≡ ok tt
    pub expected : assert_expected run input ≡ ok tt
    pub validation : assert_validation run input ≡ ok tt
    pub bootstrap : assert_bootstrap run input ≡ ok tt
    pub pull_request : assert_pull_request run input ≡ ok tt
    pub executor : assert_executor run input ≡ ok tt
    pub head : assert_head run input ≡ ok tt
    pub agent : assert_agent run input ≡ ok tt
    pub review : assert_review run input active ≡ ok tt

  assert_payload-Admitted : assert_payload native run input active ≡ ok tt → Admitted
  unfolding assert_payload
  assert_payload-Admitted h =
      let (a, h1) = >>-eq-ok (assert_required run input) _ h in
      let (b, h2) = >>-eq-ok (assert_lead native run input) _ h1 in
      let (c, h3) = >>-eq-ok (assert_admission native run input) _ h2 in
      let (d, h4) = >>-eq-ok (assert_handoff native run input) _ h3 in
      let (e, h5) = >>-eq-ok (assert_expected run input) _ h4 in
      let (f, h6) = >>-eq-ok (assert_validation run input) _ h5 in
      let (g, h7) = >>-eq-ok (assert_bootstrap run input) _ h6 in
      let (i, h8) = >>-eq-ok (assert_pull_request run input) _ h7 in
      let (j, h9) = >>-eq-ok (assert_executor run input) _ h8 in
      let (k, h10) = >>-eq-ok (assert_head run input) _ h9 in
      let (l, m) = >>-eq-ok (assert_agent run input) _ h10 in
      record {
        required = a;
        lead = b;
        admission = c;
        handed = d;
        expected = e;
        validation = f;
        bootstrap = g;
        pull_request = i;
        executor = j;
        head = k;
        agent = l;
        review = m;
      }

  -- The accepted transition, step by step.
  pub record Accepted (next : Run) : Type 0 where
    pub native_evidence : assert_native native run input ≡ ok tt
    pub target : TransitionTarget
    pub on_table : table_target run input (transition_table run.state input.type) ≡ ok target
    pub payload : Admitted
    pub to : WorkflowState
    pub to_eq : next_state run input target ≡ ok to
    pub handoff : Option RepairHandoffRecord
    pub handoff_eq : recorded_handoff native run input input.repair_agent_result ≡ ok handoff
    pub snapshot :
        next ≡ adopt_handoff handoff (record_wait_telemetry (next_run run input to now handoff) now)

  pub apply_transition-Accepted :
      {next : Run} → apply_transition native run input now active ≡ ok next → Accepted next
  unfolding apply_transition
  apply_transition-Accepted h =
      let (a, h1) = >>-eq-ok (assert_native native run input) _ h in
      let (target, b, h2) =
        >>=-eq-ok (table_target run input (transition_table run.state input.type)) _ h1 in
      let (c, h3) = >>-eq-ok (assert_payload native run input active) _ h2 in
      let (to, d, h4) = >>=-eq-ok (next_state run input target) _ h3 in
      let (handoff, e, h5) =
        >>=-eq-ok (recorded_handoff native run input input.repair_agent_result) _ h4 in
      record {
        native_evidence = a;
        target = target;
        on_table = b;
        payload = assert_payload-Admitted c;
        to = to;
        to_eq = d;
        handoff = handoff;
        handoff_eq = e;
        snapshot = sym (ok-injective h5);
      }

  pub Accepted-Fields : {next : Run} (a : Accepted next) → Fields run input a.to now a.handoff next
  Accepted-Fields a =
      subst (Fields run input a.to now a.handoff) (sym a.snapshot)
        (finished-Fields run input a.to now a.handoff)
