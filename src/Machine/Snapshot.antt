-- ===== src/Machine/Snapshot.antt =====
-- The fields of the snapshot that `applyTransition` returns.
use tachiko_conductor.Prelude.{
  String, Option, none, some, ◌≡◌, refl, ◌∙◌, ap, ◌∷◌, [], ◌++◌, arith, if◌then◌else◌,
}
use tachiko_conductor.Types.Names.{WorkflowState}
use tachiko_conductor.Types.Repair.{RepairHandoffRecord}
use tachiko_conductor.Types.Run.{TransitionInput, Run}
use tachiko_conductor.Telemetry.{record_wait_telemetry}
use tachiko_conductor.Repair.Identity.{or_else}
use tachiko_conductor.Machine.Apply.{
  next_run, adopt_handoff, strip_review, history_record, is_interrupt, with_interrupt, is_head,
  accepted_head, without_stale,
}

-- The part of a run that says where it stands and what its evidence is about.
pub record SameStanding (a b : Run) : Type 0 where
  pub state : a.state ≡ b.state
  pub history : a.history ≡ b.history
  pub head_sha : a.head_sha ≡ b.head_sha
  pub review_result : a.review_result ≡ b.review_result
  pub validation_result : a.validation_result ≡ b.validation_result
  pub pull_request : a.pull_request ≡ b.pull_request

adopt_handoff-SameStanding :
    (h : Option RepairHandoffRecord) (r : Run) → SameStanding (adopt_handoff h r) r
unfolding adopt_handoff
adopt_handoff-SameStanding none r = ground arith
adopt_handoff-SameStanding (some h) r = ground arith

adopt_handoff-interrupted_from :
    (h : Option RepairHandoffRecord) (r : Run)
    → (adopt_handoff h r).interrupted_from ≡ r.interrupted_from
unfolding adopt_handoff
adopt_handoff-interrupted_from none r = refl
adopt_handoff-interrupted_from (some h) r = refl

record_wait-SameStanding : (r : Run) (now : String) → SameStanding (record_wait_telemetry r now) r
unfolding record_wait_telemetry
record_wait-SameStanding r now = ground arith

record_wait-interrupted_from :
    (r : Run) (now : String) → (record_wait_telemetry r now).interrupted_from ≡ r.interrupted_from
unfolding record_wait_telemetry
record_wait-interrupted_from r now = ground arith

with_interrupt-SameStanding :
    (run : Run) (input : TransitionInput) (to : WorkflowState) (now : String) (r : Run)
    → SameStanding (with_interrupt run input to now r) r
unfolding with_interrupt
with_interrupt-SameStanding run input to now r = ground arith

with_interrupt-interrupted_from :
    (run : Run) (input : TransitionInput) (to : WorkflowState) (now : String) (r : Run)
    → (with_interrupt run input to now r).interrupted_from ≡ (
        if is_interrupt run.state
        then none
        else if is_interrupt to
        then some run.state
        else r.interrupted_from)
unfolding with_interrupt
with_interrupt-interrupted_from run input to now r = ground arith

-- What the snapshot holds, field by field.
pub record Fields (run : Run) (input : TransitionInput) (to : WorkflowState) (now : String)
    (handoff : Option RepairHandoffRecord) (next : Run) : Type 0 where
  pub state : next.state ≡ to
  pub history : next.history ≡ run.history ++ history_record run input to now handoff ∷ []
  pub head_sha :
      next.head_sha
      ≡ (if is_head (accepted_head run input) then accepted_head run input else run.head_sha)
  pub review_result :
      next.review_result
      ≡ or_else (strip_review input.review_result) (without_stale run input).review_result
  pub validation_result :
      next.validation_result
      ≡ or_else input.validation_result (without_stale run input).validation_result
  pub pull_request : next.pull_request ≡ or_else input.pull_request run.pull_request
  pub interrupted_from : next.interrupted_from ≡ (
      if is_interrupt run.state
      then none
      else if is_interrupt to
      then some run.state
      else run.interrupted_from)

without_stale-interrupted_from :
    (run : Run) (input : TransitionInput)
    → (without_stale run input).interrupted_from ≡ run.interrupted_from
unfolding without_stale
without_stale-interrupted_from run input = ground arith

SameStanding-trans : {a b c : Run} → SameStanding a b → SameStanding b c → SameStanding a c
SameStanding-trans p q = record {
  state = p.state ∙ q.state;
  history = p.history ∙ q.history;
  head_sha = p.head_sha ∙ q.head_sha;
  review_result = p.review_result ∙ q.review_result;
  validation_result = p.validation_result ∙ q.validation_result;
  pull_request = p.pull_request ∙ q.pull_request;
}

pub finished-Fields :
    (run : Run) (input : TransitionInput) (to : WorkflowState) (now : String)
    (handoff : Option RepairHandoffRecord)
    → Fields run input to now handoff
        (adopt_handoff handoff (record_wait_telemetry (next_run run input to now handoff) now))
unfolding next_run
finished-Fields run input to now handoff =
    let same = SameStanding-trans (adopt_handoff-SameStanding handoff _) (
      SameStanding-trans (record_wait-SameStanding _ now)
        (with_interrupt-SameStanding run input to now _)) in
    record {
      state = same.state;
      history = same.history;
      head_sha = same.head_sha;
      review_result = same.review_result;
      validation_result = same.validation_result;
      pull_request = same.pull_request;
      interrupted_from =
          adopt_handoff-interrupted_from handoff _
          ∙ (record_wait-interrupted_from _ now
              ∙ (with_interrupt-interrupted_from run input to now _
                  ∙ ap
                      (λ (o : Option WorkflowState).
                        if is_interrupt run.state
                        then none
                        else if is_interrupt to
                        then some run.state
                        else o)
                      (without_stale-interrupted_from run input)));
    }
