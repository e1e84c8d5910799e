-- ===== src/Dispatch/Claims.antt =====
-- What holds of a claim that was taken: it stands alone, and two writers cannot both take one.
use tachiko_conductor.Prelude.{
  String, string_eq, ℕ, nat_eq, option_eq, true, some, List, ok, ◌≡◌, sym, ◌∙◌,
}
use tachiko_conductor.Types.Names.{shape_eq}
use tachiko_conductor.Types.Repair.{RepairTaskShapeAuthority}
use tachiko_conductor.Admission.Valid.{Mem}
use tachiko_conductor.Dispatch.Queue.{
  DispatchQueueEntry, DispatchRuntimeComment, SelectedClaim, is_marked, new_claim,
  claim_dispatch_entry, render_dispatch_runtime, claim_state_eq,
}
use tachiko_conductor.Dispatch.Taken.{selected-sole, selected-stands, claim_dispatch_entry-IsTaken}

-- A claim that `claimDispatchEntry` returns is the one whose body it wrote, made of the entry and the
-- entry's own authority; it stands in the comment that was created, and every other comment that is
-- listed after the write is no claim.
pub claim_dispatch_entry-sole :
    (entry : DispatchQueueEntry) (lease : ℕ) (now claim_id lease_until : String)
    (before : List DispatchRuntimeComment) (created_id : String)
    (after : List DispatchRuntimeComment) (selected : SelectedClaim)
    → (claim_dispatch_entry entry lease now claim_id lease_until before created_id after).answer
      ≡ ok selected
    → ((claim_dispatch_entry entry lease now claim_id lease_until before created_id after).written
        ≡ some (render_dispatch_runtime selected.claim))
      × ((authority : RepairTaskShapeAuthority) × (entry.repair_task_shape_authority
            ≡ some authority)
          × (selected.claim ≡ new_claim entry authority now claim_id lease_until))
      × (selected.id ≡ created_id)
      × ((comment : DispatchRuntimeComment)
          → Mem comment after
          → is_marked comment ≡ true
          → comment.id ≡ created_id)
claim_dispatch_entry-sole entry lease now claim_id lease_until before created_id after selected h =
    let t =
      claim_dispatch_entry-IsTaken entry lease now claim_id lease_until before created_id after h in
    (
      t.body,
      (t.authority, t.own, t.prepared),
      t.named,
      λ comment at marked. selected-sole after t.reread comment at marked ∙ t.named,
    )

-- Of two writers that both took a claim, where the second still listed every claim that the first one
-- listed, both took the same comment: a claim that is not removed excludes every other claim.
pub claim_dispatch_entry-excludes :
    (first second : DispatchQueueEntry) (lease lease' : ℕ)
    (now claim_id lease_until now' claim_id' lease_until' : String)
    (before before' after after' : List DispatchRuntimeComment) (created_id created_id' : String)
    (selected selected' : SelectedClaim)
    → (claim_dispatch_entry first lease now claim_id lease_until before created_id after).answer
      ≡ ok selected
    → (claim_dispatch_entry second lease' now' claim_id' lease_until' before' created_id'
        after').answer
      ≡ ok selected'
    → ((comment : DispatchRuntimeComment)
        → Mem comment after
        → is_marked comment ≡ true
        → Mem comment after')
    → created_id ≡ created_id'
claim_dispatch_entry-excludes first second lease lease' now claim_id lease_until now' claim_id'
      lease_until' before before' after after' created_id created_id' selected selected' h h'
      kept_listed =
    let t =
      claim_dispatch_entry-IsTaken first lease now claim_id lease_until before created_id after h in
    let t' =
      claim_dispatch_entry-IsTaken second lease' now' claim_id' lease_until' before' created_id'
        after' h' in
    let (comment, at, marked, same) = selected-stands after t.reread in
    sym (same ∙ t.named)
    ∙ selected-sole after' t'.reread comment (kept_listed comment at marked) marked
    ∙ t'.named
