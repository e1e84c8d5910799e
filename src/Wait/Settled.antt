-- ===== src/Wait/Settled.antt =====
-- Once a wake for a completion or a failure is recorded, the wait ledger is silent, over whatever follows
-- and however often it is read from the store again.
use tachiko_conductor.Prelude.{
  ◌&&◌, not, String, string_eq, true, false, ◌≡◌, refl, sym, ap, subst, ◌∙◌, List, map, ok, arith,
  Option, none, some, get_last?, get_last?-take_last, get_last?-snoc, any-filter_by-last,
}
use tachiko_conductor.Wait.Observation.{
  WaitObservation, WaitDigests, value_or, wait_observation_digest,
}
use tachiko_conductor.Wait.Classify.{
  WaitWakeReason, WaitWakeDecision, no_wake, is_absorbing_wait_status,
}
use tachiko_conductor.Wait.Ledger.{WakeId, WaitLedger, WaitRecordedWake}
use tachiko_conductor.Wait.Advance.{
  AdvanceInput, WaitLedgerAdvance, next_ledger, advance_result, advance_wait_ledger,
  advance_woke_now, already_recorded, wake_record, advance_decision, is_duplicate,
  is_terminal_reason,
}
use tachiko_conductor.Wait.Delivery.{bound_wait_ledger, mark_wait_wakes_delivered}
use tachiko_conductor.Wait.Timeout.{record_wake, timeout_recorded}
use tachiko_conductor.Wait.Migration.{
  stored, migrate_wait_ledger, absorbing_wakes, is_terminal_wake,
}
use tachiko_conductor.Wait.Wakes.{
  Leads, advances, bounds, delivers, adopts, stays, records, advance-eq-result, result-ledger,
}

-- The subject is settled: the last wake on record is for its completion or failure.
record IsSettled (ledger : WaitLedger) : Type 0 where
  reached : ledger.terminal_reached ≡ true
  wake : WaitRecordedWake
  last : get_last? ledger.wakes ≡ some wake
  absorbing : is_absorbing_wait_status wake.status ≡ true
  terminal : is_terminal_reason (some wake.reason) ≡ true

terminal-silent :
    (digests : WaitDigests) (input : AdvanceInput)
    → input.ledger.terminal_reached ≡ true
    → advance_woke_now digests input ≡ false
unfolding advance_woke_now already_recorded
terminal-silent digests input h = ground (arith, h)

result-woke_now :
    (digests : WaitDigests) (input : AdvanceInput)
    → (advance_result digests input).woke_now ≡ advance_woke_now digests input
unfolding advance_result
result-woke_now digests input = refl

silent-wakes :
    (digests : WaitDigests) (input : AdvanceInput)
    → advance_woke_now digests input ≡ false
    → (next_ledger digests input).wakes ≡ input.ledger.wakes
unfolding next_ledger
silent-wakes digests input h = rw h refl

next_ledger-reached :
    (digests : WaitDigests) (input : AdvanceInput)
    → input.ledger.terminal_reached ≡ true
    → (next_ledger digests input).terminal_reached ≡ true
unfolding next_ledger
next_ledger-reached digests input h = rw h refl

next_ledger-IsSettled :
    (digests : WaitDigests) (input : AdvanceInput)
    → IsSettled input.ledger
    → IsSettled (next_ledger digests input)
next_ledger-IsSettled digests input s = record {
  reached = next_ledger-reached digests input s.reached;
  wake = s.wake;
  last =
      ap get_last? (silent-wakes digests input (terminal-silent digests input s.reached)) ∙ s.last;
  absorbing = s.absorbing;
  terminal = s.terminal;
}

-- Nor does a timeout wake.
record_wake-silent :
    (digests : WaitDigests) (ledger : WaitLedger) (observation : WaitObservation) (at : String)
    (decision : WaitWakeDecision)
    → ledger.terminal_reached ≡ true
    → ((record_wake digests ledger observation at decision).wake ≡ no_wake)
      × ((record_wake digests ledger observation at decision).ledger.wakes ≡ ledger.wakes)
unfolding record_wake timeout_recorded
record_wake-silent digests ledger observation at decision h =
    let still : (decision.should_wake
          && not (timeout_recorded ledger (wait_observation_digest digests observation)))
        ≡ false =
      ground (arith, h) in
    (rw still refl, rw still refl)

record_wake-IsSettled :
    (digests : WaitDigests) (ledger : WaitLedger) (observation : WaitObservation) (at : String)
    (decision : WaitWakeDecision)
    → IsSettled ledger
    → IsSettled (record_wake digests ledger observation at decision).ledger
unfolding record_wake
record_wake-IsSettled digests ledger observation at decision s = record {
  reached = s.reached;
  wake = s.wake;
  last =
      ap get_last? (record_wake-silent digests ledger observation at decision s.reached).1 ∙ s.last;
  absorbing = s.absorbing;
  terminal = s.terminal;
}

bound-IsSettled : (ledger : WaitLedger) → IsSettled ledger → IsSettled (bound_wait_ledger ledger)
unfolding bound_wait_ledger
bound-IsSettled ledger s = record {
  reached = s.reached;
  wake = s.wake;
  last = get_last?-take_last 199 ledger.wakes ∙ s.last;
  absorbing = s.absorbing;
  terminal = s.terminal;
}

-- Reading the ledger again recomputes the flag from the wakes, of which the last one settles it.
migrate-IsSettled :
    (ledger : WaitLedger) → IsSettled ledger → IsSettled (migrate_wait_ledger (stored ledger))
unfolding migrate_wait_ledger stored absorbing_wakes
migrate-IsSettled ledger s = record {
  reached =
      any-filter_by-last is_terminal_wake (λ wake. is_absorbing_wait_status wake.status)
        ledger.wakes s.wake s.last (ground (arith, s.absorbing, s.terminal)) s.absorbing;
  wake = s.wake;
  last = s.last;
  absorbing = s.absorbing;
  terminal = s.terminal;
}

deliver-IsSettled :
    (ledger : WaitLedger) (ids : List WakeId)
    → IsSettled ledger
    → IsSettled (mark_wait_wakes_delivered ledger ids)
unfolding mark_wait_wakes_delivered
deliver-IsSettled ledger ids s = record {
  reached = s.reached;
  wake = s.wake;
  last = s.last;
  absorbing = s.absorbing;
  terminal = s.terminal;
}

Leads-IsSettled :
    {digests : WaitDigests} {first last : WaitLedger}
    → Leads digests first last
    → IsSettled first
    → IsSettled last
Leads-IsSettled stays s = s
Leads-IsSettled {digests} (advances input advance leads e) s =
    rw (advance-eq-result digests input e, result-ledger digests input)
      (next_ledger-IsSettled digests input (Leads-IsSettled leads s))
Leads-IsSettled {digests} (records {ledger} observation at decision leads) s =
    record_wake-IsSettled digests ledger observation at decision (Leads-IsSettled leads s)
Leads-IsSettled (bounds {ledger} leads) s = bound-IsSettled ledger (Leads-IsSettled leads s)
Leads-IsSettled (delivers {ledger} wakes leads) s =
    deliver-IsSettled ledger (map (λ wake. wake.id) wakes) (Leads-IsSettled leads s)
Leads-IsSettled (adopts {ledger} leads) s = migrate-IsSettled ledger (Leads-IsSettled leads s)

terminal_or :
    (reason : Option WaitWakeReason)
    → is_terminal_reason reason ≡ true
    → is_terminal_reason (some (value_or reason WaitWakeReason.terminal)) ≡ true
terminal_or none h = cc
terminal_or (some reason) h = h

-- The advance that wakes for a new completion or failure settles the subject.
wakes-IsSettled :
    (digests : WaitDigests) (input : AdvanceInput)
    → is_duplicate digests input.ledger input.observation ≡ false
    → is_absorbing_wait_status input.observation.status ≡ true
    → advance_woke_now digests input ≡ true
    → is_terminal_reason (advance_decision digests input).reason ≡ true
    → IsSettled (next_ledger digests input)
unfolding next_ledger
wakes-IsSettled digests input fresh absorbing woke reason = record {
  reached = ground (arith, fresh, absorbing);
  wake = wake_record digests input (advance_decision digests input);
  last = rw woke (
      get_last?-snoc input.ledger.wakes
        (wake_record digests input (advance_decision digests input)));
  absorbing = absorbing;
  terminal = terminal_or (advance_decision digests input).reason reason;
}

result-reason :
    (digests : WaitDigests) (input : AdvanceInput)
    → (advance_result digests input).woke_now ≡ true
    → (advance_result digests input).wake.reason ≡ (advance_decision digests input).reason
unfolding advance_result
result-reason digests input h = rw h refl

-- Once an observation that is new and reports its subject completed or failed has woken the model, for
-- a reason other than the timeout, no later observation that is accepted wakes it again, nor records a
-- wake, nor does a timeout that is recorded then, whatever is observed, recorded, bounded, delivered and
-- read from the store between the two.
pub absorbed-silent :
    {digests : WaitDigests} (terminal : AdvanceInput) (at : WaitLedgerAdvance)
    (later : AdvanceInput) (advance : WaitLedgerAdvance) (decision : WaitWakeDecision)
    → is_duplicate digests terminal.ledger terminal.observation ≡ false
    → is_absorbing_wait_status terminal.observation.status ≡ true
    → advance_wait_ledger digests terminal ≡ ok at
    → at.woke_now ≡ true
    → is_terminal_reason at.wake.reason ≡ true
    → Leads digests at.ledger later.ledger
    → advance_wait_ledger digests later ≡ ok advance
    → (advance.woke_now ≡ false)
      × (advance.ledger.wakes ≡ later.ledger.wakes)
      × ((record_wake digests later.ledger later.observation later.at decision).wake ≡ no_wake)
absorbed-silent {digests} terminal at later advance decision fresh absorbing first woke reason leads
      h =
    let e = advance-eq-result digests terminal first in
    let now = subst (λ (a : WaitLedgerAdvance). a.woke_now ≡ true) e woke in
    let why = subst (λ (a : WaitLedgerAdvance). is_terminal_reason a.wake.reason ≡ true) e reason in
    let settled : IsSettled at.ledger =
      rw (e, result-ledger digests terminal)
        (wakes-IsSettled digests terminal fresh absorbing
          (sym (result-woke_now digests terminal) ∙ now)
          (sym (ap is_terminal_reason (result-reason digests terminal now)) ∙ why)) in
    let reached = (Leads-IsSettled leads settled).reached in
    let silent = terminal-silent digests later reached in
    (
      rw (advance-eq-result digests later h, result-woke_now digests later) silent,
      rw (advance-eq-result digests later h, result-ledger digests later)
          (silent-wakes digests later silent),
      (record_wake-silent digests later.ledger later.observation later.at decision reached).0,
    )
