-- ===== src/Dispatch/Taken.antt =====
-- What is known of a claim that was taken: how it was prepared, written and found again.
use tachiko_conductor.Prelude.{
  String, string_eq, ℕ, nat_eq, option_eq, Bool, true, false, ◌&&◌, ◌==◌, Option, none, some, List,
  [], ◌∷◌, filter_by, Result, ok, err, ◌>>=◌, ◌≡◌, ◌≢◌, sym, ap, subst, ◌∙◌, inl, inr, >>=-eq-ok,
  >>-eq-ok, arith, Bool-cases, if◌then◌else◌, refl, option_beq_iff, is_blank,
}
use tachiko_conductor.Types.Names.{shape_eq}
use tachiko_conductor.Types.Repair.{RepairTaskShapeAuthority}
use tachiko_conductor.Admission.Valid.{Mem, here, there, filter-Mem, filter-Mem_back}
use tachiko_conductor.Dispatch.Queue.{
  DispatchQueueEntry, DispatchRuntimeClaim, DispatchRuntimeComment, DispatchProtocolError,
  SelectedClaim, is_marked, parsed, select_marked, select_dispatch_runtime, confirm, new_claim,
  check_entry, check_free, claim_dispatch_entry, same_dispatch_runtime_claim, same_authority,
  CommentBody, prepare_claim, write_claim, require_authority, render_dispatch_runtime,
  claim_state_eq,
}

-- The claim that is found is that of the only marked comment.
pub selected-sole :
    (comments : List DispatchRuntimeComment) {found : SelectedClaim}
    → select_dispatch_runtime comments ≡ ok (some found)
    → (comment : DispatchRuntimeComment) → Mem comment comments
    → is_marked comment ≡ true
    → comment.id ≡ found.id
unfolding select_dispatch_runtime select_marked parsed
selected-sole comments {found} h comment at marked =
    go (filter_by is_marked comments) h (filter-Mem is_marked comments at marked)
  where
    body : (id : String) (b : CommentBody) → parsed id b ≡ ok (some found) → id ≡ found.id
    body id CommentBody.prose e = cc
    body id CommentBody.malformed e = cc
    body id (CommentBody.runtime claim) e = ap (λ f. f.id) (some_found e)
      where
        some_found :
            {x y : SelectedClaim}
            → ◌≡◌ {A = Result DispatchProtocolError (Option SelectedClaim)}
                (ok (some x))
                (ok (some y))
            → x ≡ y
        some_found e = cc

    go :
        (marked_comments : List DispatchRuntimeComment)
        → select_marked marked_comments ≡ ok (some found)
        → Mem comment marked_comments
        → comment.id ≡ found.id
    go [] e m = cc
    go (only ∷ []) e here = body only.id only.body e
    go (only ∷ []) e (there m) = elim m [ ]
    go (first ∷ second ∷ rest) e m = cc

-- The claim that is found stands in a marked comment.
pub selected-stands :
    (comments : List DispatchRuntimeComment) {found : SelectedClaim}
    → select_dispatch_runtime comments ≡ ok (some found)
    → (comment : DispatchRuntimeComment) × Mem comment comments
      × (is_marked comment ≡ true)
      × (comment.id ≡ found.id)
unfolding select_dispatch_runtime select_marked parsed
selected-stands comments {found} h = go (filter_by is_marked comments) h (λ c at. at)
  where
    body : (id : String) (b : CommentBody) → parsed id b ≡ ok (some found) → id ≡ found.id
    body id CommentBody.prose e = cc
    body id CommentBody.malformed e = cc
    body id (CommentBody.runtime claim) e = ap (λ f. f.id) (some_found e)
      where
        some_found :
            {x y : SelectedClaim}
            → ◌≡◌ {A = Result DispatchProtocolError (Option SelectedClaim)}
                (ok (some x))
                (ok (some y))
            → x ≡ y
        some_found e = cc

    go :
        (marked_comments : List DispatchRuntimeComment)
        → select_marked marked_comments ≡ ok (some found)
        → ((c : DispatchRuntimeComment)
            → Mem c marked_comments
            → Mem c (filter_by is_marked comments))
        → (comment : DispatchRuntimeComment) × Mem comment comments
          × (is_marked comment ≡ true)
          × (comment.id ≡ found.id)
    go [] e m = cc
    go (only ∷ []) e m =
        let (stands, marked) = filter-Mem_back is_marked comments (m only here) in
        (only, stands, marked, body only.id only.body e)
    go (first ∷ second ∷ rest) e m = cc

confirm-eq-ok :
    (created_id : String) (claim : DispatchRuntimeClaim) (found : Option SelectedClaim)
    {selected : SelectedClaim}
    → confirm created_id claim found ≡ ok selected
    → (found ≡ some selected)
      × (selected.id ≡ created_id)
      × (same_dispatch_runtime_claim selected.claim claim ≡ true)
unfolding confirm
confirm-eq-ok created_id claim none h = cc
confirm-eq-ok created_id claim (some reread) {selected} h =
    elim (Bool-cases
      ((reread.id == created_id) && same_dispatch_runtime_claim reread.claim claim)) [
        | inl both ↦
            let same : reread ≡ selected = ok_value (
              subst
                (λ b.
                  (if b then ok reread else err DispatchProtocolError.not_sole_claim) ≡ ok selected)
                both h) in
            let (named, equal) = and_parts _ _ both in
            (
              ap some same,
              subst (λ s. s.id ≡ created_id) same
                  ((string_eq.beq_iff reread.id created_id).0 named),
              subst (λ s. same_dispatch_runtime_claim s.claim claim ≡ true) same equal,
            )
        | inr refused ↦ absurd (
            err_ok (
              subst
                (λ b.
                  (if b then ok reread else err DispatchProtocolError.not_sole_claim) ≡ ok selected)
                refused h))
      ]
  where
    ok_value :
        {x y : SelectedClaim}
        → ◌≡◌ {A = Result DispatchProtocolError SelectedClaim} (ok x) (ok y)
        → x ≡ y
    ok_value e = cc

    err_ok :
        {x : SelectedClaim}
        → ◌≢◌ {A = Result DispatchProtocolError SelectedClaim}
            (err DispatchProtocolError.not_sole_claim)
            (ok x)
    err_ok e = cc

    and_parts : (x y : Bool) → (x && y) ≡ true → (x ≡ true) × (y ≡ true)
    and_parts x y e = (ground arith, ground arith)

same_authority-eq :
    (left right : Option RepairTaskShapeAuthority) → same_authority left right ≡ true → left ≡ right
unfolding same_authority
same_authority-eq none none h = refl
same_authority-eq none (some right) h = cc
same_authority-eq (some left) none h = cc
same_authority-eq (some left) (some right) h =
    let revision = string_eq.beq_iff left.revision right.revision in
    let shape = shape_eq.beq_iff left.shape right.shape in ground (arith, revision, shape)

-- Two claims that agree in every field are one.
same_claim-eq :
    (left right : DispatchRuntimeClaim)
    → same_dispatch_runtime_claim left right ≡ true
    → left ≡ right
unfolding same_dispatch_runtime_claim
same_claim-eq left right h =
    let issue = nat_eq.beq_iff left.issue right.issue in
    let claim_id = string_eq.beq_iff left.claim_id right.claim_id in
    let run_id = option_beq_iff left.run_id right.run_id in
    let profile = string_eq.beq_iff left.profile right.profile in
    let authority =
      same_authority-eq left.repair_task_shape_authority right.repair_task_shape_authority in
    let state = claim_state_eq.beq_iff left.state right.state in
    let claimed_at = string_eq.beq_iff left.claimed_at right.claimed_at in
    let heartbeat_at = string_eq.beq_iff left.heartbeat_at right.heartbeat_at in
    let lease_until = string_eq.beq_iff left.lease_until right.lease_until in
    ground (
      arith, issue, claim_id, run_id, profile, authority, state, claimed_at, heartbeat_at,
      lease_until,
    )

-- The authority of an entry that passes the test is the entry's own.
check_entry-authority :
    (entry : DispatchQueueEntry) {authority : RepairTaskShapeAuthority}
    → check_entry entry ≡ ok authority
    → entry.repair_task_shape_authority ≡ some authority
unfolding check_entry require_authority
check_entry-authority entry {authority} h =
    let (_, own) = >>-eq-ok _ (require_authority entry.repair_task_shape_authority) h in
    go entry.repair_task_shape_authority own
  where
    kept :
        (blank : Bool) {a : RepairTaskShapeAuthority}
        → ◌≡◌ {A = Result DispatchProtocolError RepairTaskShapeAuthority}
            (if blank then err DispatchProtocolError.no_authority else ok a)
            (ok authority)
        → a ≡ authority
    kept true e = cc
    kept false e = cc

    go :
        (found : Option RepairTaskShapeAuthority)
        → require_authority found ≡ ok authority
        → found ≡ some authority
    go none e = cc
    go (some a) e = ap some (kept (is_blank a.revision) e)

-- What is known of a claim that was taken: it was prepared for the entry's own authority, written, and
-- found again.
pub record IsTaken (entry : DispatchQueueEntry) (now claim_id lease_until : String)
    (written : Option CommentBody) (created_id : String) (after : List DispatchRuntimeComment)
    (selected : SelectedClaim) : Type 0 where
  pub authority : RepairTaskShapeAuthority
  pub own : entry.repair_task_shape_authority ≡ some authority
  pub reread : select_dispatch_runtime after ≡ ok (some selected)
  pub named : selected.id ≡ created_id
  pub prepared : selected.claim ≡ new_claim entry authority now claim_id lease_until
  pub body : written ≡ some (render_dispatch_runtime selected.claim)

-- A claim that is taken is confirmed.
pub claim_dispatch_entry-IsTaken :
    (entry : DispatchQueueEntry) (lease : ℕ) (now claim_id lease_until : String)
    (before : List DispatchRuntimeComment) (created_id : String)
    (after : List DispatchRuntimeComment) {selected : SelectedClaim}
    → (claim_dispatch_entry entry lease now claim_id lease_until before created_id after).answer
      ≡ ok selected
    → IsTaken entry now claim_id lease_until
        (claim_dispatch_entry entry lease now claim_id lease_until before created_id after).written
        created_id
        after
        selected
unfolding claim_dispatch_entry prepare_claim write_claim
claim_dispatch_entry-IsTaken entry lease now claim_id lease_until before created_id after {selected}
      h =
    go (check_entry entry) (check_free lease before) refl h
  where
    go :
        (checked : Result DispatchProtocolError RepairTaskShapeAuthority)
        (free : Result DispatchProtocolError (Unit {0}))
        → check_entry entry ≡ checked
        → (write_claim entry lease now claim_id lease_until before created_id after (
            checked >>= (λ authority.
              free >>= (λ _. ok (new_claim entry authority now claim_id lease_until))))).answer
          ≡ ok selected
        → IsTaken entry now claim_id lease_until
            (write_claim entry lease now claim_id lease_until before created_id after (
              checked >>= (λ authority.
                free >>= (λ _. ok (new_claim entry authority now claim_id lease_until))))).written
            created_id
            after
            selected
    go (err e) free c a = cc
    go (ok authority) (err e) c a = cc
    go (ok authority) (ok _) c a =
        let claim = new_claim entry authority now claim_id lease_until in
        let (found, reread, confirmed) =
          >>=-eq-ok (select_dispatch_runtime after) (confirm created_id claim) a in
        let (same, named, equal) = confirm-eq-ok created_id claim found confirmed in
        let eq = same_claim-eq selected.claim claim equal in
        record {
          authority = authority;
          own = check_entry-authority entry c;
          reread = reread ∙ ap ok same;
          named = named;
          prepared = eq;
          body = ap (λ c. some (render_dispatch_runtime c)) (sym eq);
        }
