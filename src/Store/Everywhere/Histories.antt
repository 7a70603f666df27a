-- ===== src/Store/Everywhere/Histories.antt =====
-- Every method keeps a property that each kind of write keeps.
use proxmox_ovn.Prelude.{
  ℕ, ◌-◌, ltb, take, ◌++◌, pos, ltb_ℤ, nat_beq, int_eq, length, ◌≡◌, sym, subst, inl, inr, Bool,
  ◌||◌, In, In-append, In-take, In-select, In-sort, ℤ, if-keeps,
}
use proxmox_ovn.Text.{Text}
use proxmox_ovn.Platform.{Platform}
use proxmox_ovn.Result.{ok, cancelled, conflict, then-ok, refuse, ok_inj, answered}
use proxmox_ovn.Model.Kind.{Kind}
use proxmox_ovn.Model.Resource.{Metadata, Resource, Body, operation, Operation}
use proxmox_ovn.Store.Table.{Table, Row, put, operation?, rows}
use proxmox_ovn.Store.Idempotency.{Store, new_memory}
use proxmox_ovn.Store.Update.{prepare_update, stamp_update}
use proxmox_ovn.Store.Delete.{tombstone_of}
use proxmox_ovn.Store.Lease.{renewed_row, fence_reconciles}
use proxmox_ovn.Store.Retention.{
  prune_operations, recover_expired_operations, expired_running_operations,
  superseded_queued_reconciles, recovery_candidates,
}
use proxmox_ovn.Store.History.{
  Step, Reach, Reach-keeps, creates, updates, begins_delete, purges, claims, renews, fences, prunes,
  recovers, reconciles, observes,
}
use proxmox_ovn.Store.Outcomes.{create_outcome, update_outcome}
use proxmox_ovn.Store.Outcomes.Updates.{Updated-table}
use proxmox_ovn.Store.Outcomes.Deletes.{begin_delete_outcome, purge_outcome}
use proxmox_ovn.Store.Outcomes.Operations.{
  claim_outcome, renew_outcome, mark_outcome, observe_outcome,
}
use proxmox_ovn.Store.Everywhere.{
  Everywhere, KeptByWrites, put-Everywhere, remove-Everywhere, found_at, operation_at, node_at,
  rows_at, fence-Everywhere, prune-Everywhere, recover-Everywhere, rendered_kept,
}

In-expired :
    (t : Table) (cutoff : ℕ) (o : Row Operation)
    → In o (expired_running_operations t cutoff)
    → In o (rows operation? t)
unfolding expired_running_operations
In-expired t cutoff o m = (In-select _ (rows operation? t) o (In-sort _ _ o m)).0

In-superseded :
    (t : Table) (o : Row Operation)
    → In o (superseded_queued_reconciles t)
    → In o (rows operation? t)
unfolding superseded_queued_reconciles
In-superseded t o m = (In-select _ (rows operation? t) o (In-sort _ _ o m)).0

-- Every candidate of a recovery is an operation of the table.
pub In-candidates :
    (t : Table) (cutoff limit : ℕ) (o : Row Operation)
    → In o (recovery_candidates t cutoff limit)
    → In o (rows operation? t)
unfolding recovery_candidates
In-candidates t cutoff limit o m =
    let expired = expired_running_operations t cutoff in
    let queued = take (limit - length expired) (superseded_queued_reconciles t) in
    if-keeps (λ xs. In o xs → In o (rows operation? t)) (ltb (length expired) limit)
      (expired ++ queued) expired
      (λ n. elim (In-append expired queued o n) [
        | inl e ↦ In-expired t cutoff o e
        | inr q ↦
            In-superseded t o
              (In-take (limit - length expired) (superseded_queued_reconciles t) o q)
      ])
      (In-expired t cutoff o) (In-take limit _ o m)

module _ {p : Platform} {P : Body → Type 0} (keeps : KeptByWrites p P) where
  written : (t u : Table) (r : Resource) → u ≡ put t r → Everywhere P t → P r.body → Everywhere P u
  written t u r e c h = subst (Everywhere P) (sym e) (put-Everywhere keeps t r c h)

  candidates_at :
      (t : Table) (cutoff limit : ℕ) (o : Row Operation)
      → Everywhere P t
      → In o (recovery_candidates t cutoff limit)
      → P (operation o.value)
  candidates_at t cutoff limit o c m = rows_at keeps t o c (In-candidates t cutoff limit o m)

  fence_kept :
      (done : Bool) (kind : Kind) (id : Text) (cutoff recovered : ℕ) (s : Store)
      {c : Bool × Bool × Store}
      → fence_reconciles done kind id cutoff recovered s ≡ ok c
      → Everywhere P s.resources
      → Everywhere P c.2.resources
  unfolding fence_reconciles
  fence_kept done kind id cutoff recovered s h c =
      let (_, rest) = then-ok (refuse done cancelled) _ h in
      subst (λ (x : Bool × Bool × Store). Everywhere P x.2.resources) (ok_inj rest)
        (record { at = λ x. fence-Everywhere keeps kind id cutoff recovered s.resources x c.at })

  prune_kept :
      (done : Bool) (before : ℕ) (keep : ℤ) (s : Store) {c : ℕ × Store}
      → prune_operations done before keep s ≡ ok c
      → Everywhere P s.resources
      → Everywhere P c.1.resources
  unfolding prune_operations
  prune_kept done before keep s h c =
      let (_, rest) = then-ok (refuse done cancelled) _ h in
      let (_, rest') = then-ok (refuse (nat_beq before 0 || ltb_ℤ keep (pos 0)) conflict) _ rest in
      answered (λ (r : ℕ × Store). Everywhere P r.1.resources) _ _ _ rest' c
        (prune-Everywhere keeps before _ _ 0 s c)

  recover_kept :
      (done : Bool) (cutoff recovered : ℕ) (limit : ℤ) (s : Store) {c : ℕ × Store}
      → recover_expired_operations done cutoff recovered limit s ≡ ok c
      → Everywhere P s.resources
      → Everywhere P c.1.resources
  unfolding recover_expired_operations
  recover_kept done cutoff recovered limit s h c =
      let (_, rest) = then-ok (refuse done cancelled) _ h in
      let (_, rest') =
        then-ok (refuse (nat_beq cutoff 0 || nat_beq recovered 0 || ltb_ℤ limit (pos 1)) conflict) _
          rest in
      subst (λ (x : ℕ × Store). Everywhere P x.1.resources) (ok_inj rest')
        (recover-Everywhere keeps recovered _ s.resources
          (λ o. candidates_at s.resources cutoff _ o c) c)

  tombstone_kept : (now : ℕ) (r : Resource) → P r.body → P (tombstone_of now r).body
  unfolding tombstone_of
  tombstone_kept now r h = keeps.pending r.body h

  stamp_kept : (now : ℕ) (m : Metadata) (r : Resource) → P r.body → P (stamp_update now m r).body
  unfolding stamp_update
  stamp_kept now m r h = h

  renewed_kept : (o : Row Operation) (now : ℕ) → P (operation o.value) → P (renewed_row o now).body
  unfolding renewed_row
  renewed_kept o now h = h

  Step-Everywhere : (s t : Store) → Step p s t → Everywhere P s.resources → Everywhere P t.resources
  Step-Everywhere s t (creates now id r key done h) c =
      elim (create_outcome p done now id r key s h) [
        | inl (same, _) ↦ rw same c
        | inr (queued, checked, _, _, table) ↦
            written s.resources _ _ table c (keeps.created s now key id r queued checked)
      ]
  Step-Everywhere s t (updates now r expected key done h) c =
      elim (update_outcome p done now r expected key s h) [
        | inl (same, _) ↦ rw same c
        | inr u ↦ written s.resources _ _ (Updated-table p now r expected s _ u) c (
            rw u.written (
              stamp_kept now u.current.meta (prepare_update p r)
                (keeps.updated s.resources u.current r u.checked)))
      ]
  Step-Everywhere s t (begins_delete now kind id expected key done h) c =
      elim (begin_delete_outcome p done now kind id expected key s h) [
        | inl (same, _) ↦ rw same c
        | inr b ↦ written s.resources _ _ b.table c (
            tombstone_kept now b.current
              (found_at keeps s.resources kind id b.current c b.found_current))
      ]
  Step-Everywhere s t (purges kind id revision done h) c =
      elim (purge_outcome done kind id revision s h) [
        | inl (_, same) ↦ rw same c
        | inr g ↦ rw g.after (remove-Everywhere keeps s.resources kind id c)
      ]
  Step-Everywhere s t (claims id expected action owner started cutoff done h) c =
      let o = claim_outcome done id expected action owner started cutoff s h in
      rw o.after (
        put-Everywhere keeps s.resources _ c (
          keeps.claimed o.stored owner started o.owner_valid
            (operation_at keeps s.resources id o.stored c o.found_stored)))
  Step-Everywhere s t (renews id expected owner renewed done h) c =
      let o = renew_outcome done id expected owner renewed s h in
      rw o.after (
        put-Everywhere keeps s.resources _ c (
          renewed_kept o.stored renewed
            (operation_at keeps s.resources id o.stored c o.found_stored)))
  Step-Everywhere s t (fences kind id cutoff recovered done h) c =
      fence_kept done kind id cutoff recovered s h c
  Step-Everywhere s t (prunes before keep done h) c = prune_kept done before keep s h c
  Step-Everywhere s t (recovers cutoff recovered limit done h) c =
      recover_kept done cutoff recovered limit s h c
  Step-Everywhere s t (reconciles now kind id revision error done h) c =
      let o = mark_outcome done now kind id revision error s h in
      rw o.after (
        put-Everywhere keeps s.resources _ c (
          rendered_kept keeps revision error now o.stored
            (found_at keeps s.resources kind id o.stored c o.found_stored)))
  Step-Everywhere s t (observes id expected seen done h) c =
      let o = observe_outcome done id expected seen s h in
      rw o.after (
        if-keeps (λ (x : Store). Everywhere P x.resources) _ _ _ c
          (put-Everywhere keeps s.resources _ c (
            keeps.observed o.stored seen (node_at keeps s.resources id o.stored c o.found_stored))))

  -- What each kind of write keeps holds of every row after any history.
  pub Reach-Everywhere : (s : Store) → Reach p new_memory s → Everywhere P s.resources
  Reach-Everywhere s r =
      Reach-keeps (λ x. Everywhere P x.resources) p Step-Everywhere new_memory s r
        (record { at = λ x m. elim m [ ] })
