-- ===== src/Operational/Consistency.antt =====
-- A projection that is composed never contradicts itself.
use tachiko_conductor.Prelude.{
  Bool, true, false, not, ◌&&◌, ◌||◌, ◌==◌, Option, none, some, ◌≡◌, refl, arith, ltb, nat_eq,
}
use tachiko_conductor.Operational.Projection.{
  Ownership, Checkpoint, ManualLane, ProjectionInput, Summary, summary_of, demote, summarize,
  is_uncertain, adverse_parked_lane, compose_operational_runtime_projection, ownership_eq,
  checkpoint_eq, manual_state_eq,
}
use tachiko_conductor.Operational.Verdict.{is_active_manual, is_consistent}

-- The details of a summary agree with it.
agrees : Summary → Bool
agrees s =
    not ((is_active_manual s.manual_lane || false) && not (s.ownership == Ownership.active))
    && not (
        adverse_parked_lane s.manual_lane
        && (s.ownership == Ownership.unowned)
        && (s.checkpoint == Checkpoint.durable))

summary_of-agrees :
    (writes truncated uncertain : Bool) (lane : Option ManualLane)
    → agrees (summary_of writes truncated uncertain lane) ≡ true
unfolding agrees summary_of demote is_active_manual adverse_parked_lane
summary_of-agrees true truncated uncertain none = refl
summary_of-agrees true truncated uncertain (some lane) = ground arith
summary_of-agrees false true uncertain none = refl
summary_of-agrees false true uncertain (some lane) = ground arith
summary_of-agrees false false true none = refl
summary_of-agrees false false true (some lane) = ground arith
summary_of-agrees false false false none = refl
summary_of-agrees false false false (some lane) = ground arith

-- The projection that is composed of any input agrees with itself: an active manual lane is shown only
-- with active ownership, and an adverse parked lane never with a durable checkpoint that nobody owns.
pub is_consistent-compose :
    (input : ProjectionInput) → is_consistent (compose_operational_runtime_projection input) ≡ true
unfolding is_consistent compose_operational_runtime_projection agrees summarize
is_consistent-compose input =
    summary_of-agrees (ltb 0 input.admission.counts.writers) input.admission.lanes_truncated
      (is_uncertain input) input.manual_lane
