-- ===== src/Admission/Rules.antt =====
-- Operations that advance the lanes of the registry: a rule for each construct.
use tachiko_conductor.Prelude.{
  some_injective, String, string_eq, nat_eq, option_eq, ◌≢◌, Bool, true, false, some, List, ◌≡◌,
  refl, sym, ap, subst, ◌∙◌, ok, err, ◌>>◌, ◌>>=◌, if◌then◌else◌,
}
use tachiko_conductor.Admission.Types.{LaneRecord, RegistryState, AdmissionStateError}
use tachiko_conductor.Admission.Evidence.{Checked}
use tachiko_conductor.Admission.State.{lane_by_id}
use tachiko_conductor.Admission.Transact.{Step, kept, wrote, replace_lane, put_lane}
use tachiko_conductor.Admission.Fencing.{Follows, Advances, lane_by_id-id, replace_lane-Advances}

-- An operation that mutates the registry advances its lanes.
pub record Keeps {A : Type 0} (lanes : List LaneRecord) (operation : Checked (Step A))
    : Type 0 where
  pub advances :
      (state : RegistryState) (result : A)
      → operation ≡ ok (wrote state result)
      → Advances lanes state.lanes

module _ {A : Type 0} {lanes : List LaneRecord} where
  pub >>=-Keeps :
      {B : Type 0} {first : Checked B} {next : B → Checked (Step A)}
      → ((value : B) → first ≡ ok value → Keeps lanes (next value))
      → Keeps lanes (first >>= next)
  >>=-Keeps {B} {first} {next} keeps = go first keeps
    where
      go :
          (m : Checked B)
          → ((value : B) → m ≡ ok value → Keeps lanes (next value))
          → Keeps lanes (m >>= next)
      go (ok value) k = k value refl
      go (err error) k = record { advances = λ s r h. cc }

  pub each-Keeps :
      {B : Type 0} (first : Checked B) {next : B → Checked (Step A)}
      → ((value : B) → Keeps lanes (next value))
      → Keeps lanes (first >>= next)
  each-Keeps first keeps = >>=-Keeps (λ value _. keeps value)

  pub >>-Keeps :
      (first : Checked Unit) {next : Checked (Step A)}
      → Keeps lanes next
      → Keeps lanes (first >> next)
  >>-Keeps first keeps = >>=-Keeps (λ _ _. keeps)

  pub kept-Keeps : {result : A} → Keeps lanes (ok (kept result))
  kept-Keeps = record { advances = λ s r h. absurd (kept-not-wrote h) }
    where
      kept-not-wrote :
          {result r : A} {s : RegistryState}
          → ◌≢◌ {A = Checked (Step A)} (ok (kept result)) (ok (wrote s r))
      kept-not-wrote h = cc

  pub kept_after-Keeps : (m : Checked A) → Keeps lanes (m >>= λ result. ok (kept result))
  kept_after-Keeps (ok result) = kept-Keeps
  kept_after-Keeps (err error) = record { advances = λ s r h. cc }

  pub err-Keeps : {error : AdmissionStateError} → Keeps {A = A} lanes (err error)
  err-Keeps = record { advances = λ s r h. cc }

  pub if-Keeps :
      (b : Bool) {yes_step no_step : Checked (Step A)}
      → Keeps lanes yes_step
      → Keeps lanes no_step
      → Keeps lanes (if b then yes_step else no_step)
  if-Keeps b {yes_step} {no_step} first second = go b
    where
      go : (c : Bool) → Keeps lanes (if c then yes_step else no_step)
      go true = first
      go false = second

  pub ok_if-Keeps :
      (b : Bool) {first second : Step A}
      → Keeps lanes (ok first)
      → Keeps lanes (ok second)
      → Keeps lanes (ok (if b then first else second))
  ok_if-Keeps true first second = first
  ok_if-Keeps false first second = second

  pub wrote-Keeps :
      {state : RegistryState} {result : A}
      → Advances lanes state.lanes
      → Keeps lanes (ok (wrote state result))
  wrote-Keeps {state} advances = record {
    advances = λ s r h. subst (λ t. Advances lanes t.lanes) (wrote_injective h) advances;
  }
    where
      wrote_injective :
          {s t : RegistryState} {q r : A}
          → ◌≡◌ {A = Checked (Step A)} (ok (wrote s q)) (ok (wrote t r))
          → s ≡ t
      wrote_injective h = cc

-- A new generation of a lane that stands in the registry.
pub replace-Advances :
    (lanes : List LaneRecord) (old next : LaneRecord) (id : String)
    → lane_by_id id lanes ≡ some old
    → next.lane_id ≡ old.lane_id
    → Follows old next
    → Advances lanes (replace_lane lanes next)
replace-Advances lanes old next id found same follows =
    replace_lane-Advances lanes next (λ other there.
      subst (λ lane. Follows lane next)
        (some_injective (sym found ∙ ap (λ name. lane_by_id name lanes) (sym named) ∙ there))
        follows)
  where
    named : next.lane_id ≡ id
    named = same ∙ lane_by_id-id id lanes found

pub next-Keeps :
    {A : Type 0} {result : A} (kind now : String) (state : RegistryState) (old next : LaneRecord)
    (id : String)
    → lane_by_id id state.lanes ≡ some old
    → next.lane_id ≡ old.lane_id
    → Follows old next
    → Keeps state.lanes (ok (wrote (put_lane state next kind now) result))
unfolding put_lane
next-Keeps kind now state old next id found same follows =
    wrote-Keeps (replace-Advances state.lanes old next id found same follows)
