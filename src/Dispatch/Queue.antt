-- ===== src/Dispatch/Queue.antt =====
-- src/dispatch/queue.ts: runtime claims, and how one is taken. A comment's body is what
-- `parseDispatchRuntime` makes of it: prose without the marker, a marked body that does not parse, or a
-- claim; the two listings of comments and the answer of the API are arguments.
use tachiko_conductor.Prelude.{
  String, string_eq, ℕ, nat_eq, option_eq, Bool, true, false, not, ◌&&◌, ◌==◌, Option, none, some,
  List, [], ◌∷◌, filter_by, Result, ok, err, ◌>>=◌, ◌>>◌, reject, is_blank, if◌then◌else◌, Eq,
  discrete_eq,
}
use tachiko_conductor.Types.Names.{shape_eq}
use tachiko_conductor.Types.Repair.{RepairTaskShapeAuthority}
use tachiko_conductor.Admission.Platform.{safe_positive}

pub data DispatchRoute : Type 0 where
  codex chatgpt work human : DispatchRoute

instance abbrev pub route_eq : Eq DispatchRoute
route_eq = discrete_eq hlevel

pub data ClaimState : Type 0 where
  claimed running merge_ready needs_human failed retired : ClaimState

instance abbrev pub claim_state_eq : Eq ClaimState
claim_state_eq = discrete_eq hlevel

pub record DispatchQueueEntry : Type 0 where
  pub issue : ℕ
  pub route : DispatchRoute
  pub profile : String
  pub repair_task_shape_authority : Option RepairTaskShapeAuthority

pub record DispatchRuntimeClaim : Type 0 where
  pub issue : ℕ
  pub claim_id : String
  pub run_id : Option String
  pub profile : String
  pub repair_task_shape_authority : Option RepairTaskShapeAuthority
  pub state : ClaimState
  pub claimed_at : String
  pub heartbeat_at : String
  pub lease_until : String

unfoldable pub same_authority : (left right : Option RepairTaskShapeAuthority) → Bool
same_authority none none = true
same_authority none (some right) = false
same_authority (some left) none = false
same_authority (some left) (some right) =
    (left.revision == right.revision) && (left.shape == right.shape)

-- `sameDispatchRuntimeClaim`
unfoldable pub same_dispatch_runtime_claim : (left right : DispatchRuntimeClaim) → Bool
same_dispatch_runtime_claim left right =
    (left.issue == right.issue)
    && (left.claim_id == right.claim_id)
    && (left.run_id == right.run_id)
    && (left.profile == right.profile)
    && same_authority left.repair_task_shape_authority right.repair_task_shape_authority
    && (left.state == right.state)
    && (left.claimed_at == right.claimed_at)
    && (left.heartbeat_at == right.heartbeat_at)
    && (left.lease_until == right.lease_until)

pub data CommentBody : Type 0 where
  prose malformed : CommentBody
  runtime : DispatchRuntimeClaim → CommentBody

pub record DispatchRuntimeComment : Type 0 where
  pub id : String
  pub body : CommentBody

pub data DispatchProtocolError : Type 0 where
  many_claims malformed_claim not_codex no_authority bad_lease : DispatchProtocolError
  competing_claim not_sole_claim : DispatchProtocolError

-- The body holds the marker.
abbrev pub is_marked : DispatchRuntimeComment → Bool
is_marked comment = marked comment.body
  where
    marked : CommentBody → Bool
    marked CommentBody.prose = false
    marked _ = true

pub record SelectedClaim : Type 0 where
  pub id : String
  pub claim : DispatchRuntimeClaim

unfoldable pub parsed :
    (id : String) → CommentBody → Result DispatchProtocolError (Option SelectedClaim)
parsed id (CommentBody.runtime claim) = ok (some (record { id = id; claim = claim }))
parsed id _ = err DispatchProtocolError.malformed_claim

unfoldable pub select_marked :
    List DispatchRuntimeComment → Result DispatchProtocolError (Option SelectedClaim)
unfolding parsed
select_marked [] = ok none
select_marked (comment ∷ []) = parsed comment.id comment.body
select_marked (first ∷ second ∷ rest) = err DispatchProtocolError.many_claims

-- `selectDispatchRuntime`
unfoldable pub select_dispatch_runtime :
    List DispatchRuntimeComment → Result DispatchProtocolError (Option SelectedClaim)
unfolding select_marked
select_dispatch_runtime comments = select_marked (filter_by is_marked comments)

-- The claim that is written for an entry.
unfoldable pub new_claim :
    DispatchQueueEntry
    → RepairTaskShapeAuthority
    → (now claim_id lease_until : String) → DispatchRuntimeClaim
new_claim entry authority now claim_id lease_until = record {
  issue = entry.issue;
  claim_id = claim_id;
  run_id = none;
  profile = entry.profile;
  repair_task_shape_authority = some authority;
  state = ClaimState.claimed;
  claimed_at = now;
  heartbeat_at = now;
  lease_until = lease_until;
}

require_none : Option SelectedClaim → Result DispatchProtocolError (Unit {0})
require_none none = ok tt
require_none (some claim) = err DispatchProtocolError.competing_claim

unfoldable pub confirm :
    (created_id : String)
    → DispatchRuntimeClaim
    → Option SelectedClaim
    → Result DispatchProtocolError SelectedClaim
confirm created_id claim none = err DispatchProtocolError.not_sole_claim
confirm created_id claim (some reread) =
    if (reread.id == created_id) && same_dispatch_runtime_claim reread.claim claim
    then ok reread
    else err DispatchProtocolError.not_sole_claim

unfoldable pub require_authority :
    Option RepairTaskShapeAuthority → Result DispatchProtocolError RepairTaskShapeAuthority
require_authority none = err DispatchProtocolError.no_authority
require_authority (some authority) =
    if is_blank authority.revision then err DispatchProtocolError.no_authority else ok authority

-- The entry is for Codex, and carries an authority.
unfoldable pub check_entry :
    DispatchQueueEntry → Result DispatchProtocolError RepairTaskShapeAuthority
unfolding require_authority
check_entry entry =
    reject (not (entry.route == DispatchRoute.codex)) DispatchProtocolError.not_codex
    >> require_authority entry.repair_task_shape_authority

-- The tests that come before the claim is written.
unfoldable pub check_free :
    (lease_duration_ms : ℕ)
    → (before : List DispatchRuntimeComment) → Result DispatchProtocolError (Unit {0})
unfolding require_none
check_free lease before =
    reject (not (safe_positive lease)) DispatchProtocolError.bad_lease
    >> (select_dispatch_runtime before >>= require_none)

-- `renderDispatchRuntime`: the body that parses to the claim.
abbrev pub render_dispatch_runtime : DispatchRuntimeClaim → CommentBody
render_dispatch_runtime claim = CommentBody.runtime claim

-- What an attempt to claim does: the body that it hands to `createRuntimeComment`, if it comes that far,
-- and its answer.
pub record ClaimAttempt : Type 0 where
  pub written : Option CommentBody
  pub answer : Result DispatchProtocolError SelectedClaim

-- `claimDispatchEntry`, with the comments that are listed before the claim is written, the identifier of
-- the comment that is created, and the comments that are listed after.
module _ (entry : DispatchQueueEntry) (lease_duration_ms : ℕ) (now claim_id lease_until : String)
    (before : List DispatchRuntimeComment) (created_id : String)
    (after : List DispatchRuntimeComment) where
  -- The claim that is to be written, once the tests before the write have passed.
  unfoldable pub prepare_claim : Result DispatchProtocolError DispatchRuntimeClaim
  prepare_claim = do
    authority ← check_entry entry
    _ ← check_free lease_duration_ms before
    ok (new_claim entry authority now claim_id lease_until)

  -- The claim is written, and the comments are listed again.
  unfoldable pub write_claim : Result DispatchProtocolError DispatchRuntimeClaim → ClaimAttempt
  write_claim (err e) = record { written = none; answer = err e }
  write_claim (ok claim) = record {
    written = some (render_dispatch_runtime claim);
    answer = select_dispatch_runtime after >>= confirm created_id claim;
  }

  unfoldable pub claim_dispatch_entry : ClaimAttempt
  unfolding prepare_claim write_claim
  claim_dispatch_entry = write_claim prepare_claim
