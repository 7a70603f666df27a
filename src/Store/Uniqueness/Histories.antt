-- ===== src/Store/Uniqueness/Histories.antt =====
-- Every method keeps the table free of conflicts, so every history from an empty store does.
use proxmox_ovn.Prelude.{
  ℕ, pos, ltb_ℤ, nat_beq, int_eq, ◌≡◌, sym, subst, inl, inr, Bool, ◌||◌, ℤ, if-keeps,
}
use proxmox_ovn.Text.{Text, text_eq}
use proxmox_ovn.Platform.{Platform}
use proxmox_ovn.Result.{ok, cancelled, conflict, then-ok, refuse, ok_inj, answered}
use proxmox_ovn.Model.Kind.{Kind, kind_eq}
use proxmox_ovn.Model.Resource.{Resource, operation}
use proxmox_ovn.Store.Table.{Table, put}
use proxmox_ovn.Store.Table.Laws.{lookup-In}
use proxmox_ovn.Store.Idempotency.{Store, new_memory}
use proxmox_ovn.Store.Update.{prepare_update}
use proxmox_ovn.Store.Delete.{tombstone_of}
use proxmox_ovn.Store.Lease.{fence_row, fence_reconciles}
use proxmox_ovn.Store.Retention.{prune_operations, recover_expired_operations, recovery_candidates}
use proxmox_ovn.Store.History.{
  Step, Reach, Reach-keeps, creates, updates, begins_delete, purges, claims, renews, fences, prunes,
  recovers, reconciles, observes,
}
use proxmox_ovn.Store.Outcomes.{create_outcome, update_outcome}
use proxmox_ovn.Store.Outcomes.Updates.{Updated-table}
use proxmox_ovn.Store.Outcomes.Deletes.{begin_delete_outcome, purge_outcome}
use proxmox_ovn.Store.Outcomes.Operations.{
  claim_outcome, renew_outcome, mark_outcome, observe_outcome,
}
use proxmox_ovn.Store.Everywhere.Histories.{In-candidates}
use proxmox_ovn.Store.Uniqueness.Rows.{
  IsDistinct, Fits, put-IsDistinct, remove-IsDistinct, replace-IsDistinct, map-IsDistinct,
}
use proxmox_ovn.Store.Uniqueness.Claims.{
  created-Fits, updated-Fits, tombstone-ClaimsLike, rendered-ClaimsLike, row_resource,
  claimed-ClaimsLike, renewed-ClaimsLike, observed-ClaimsLike,
}
use proxmox_ovn.Store.Uniqueness.Bulk.{
  operation-In, node-In, row-In, fence_row-ClaimsLike, prune-IsDistinct, recover-IsDistinct,
  Recoverable,
}

written : (t u : Table) (r : Resource) → u ≡ put t r → IsDistinct t → Fits r t → IsDistinct u
written t u r e d fits = subst IsDistinct (sym e) (put-IsDistinct t r d fits)

candidates-Recoverable :
    (t : Table) (cutoff limit : ℕ)
    → IsDistinct t
    → Recoverable (recovery_candidates t cutoff limit) t
candidates-Recoverable t cutoff limit d = record {
  fits = λ o m x n.
      d.apart (row_resource o.meta (operation o.value)) x
        (row-In t o (In-candidates t cutoff limit o m)) n;
  pairs = λ o x m n.
      d.apart (row_resource o.meta (operation o.value)) (row_resource x.meta (operation x.value))
        (row-In t o (In-candidates t cutoff limit o m))
        (row-In t x (In-candidates t cutoff limit x n));
}

fence_kept :
    (done : Bool) (kind : Kind) (id : Text) (cutoff recovered : ℕ) (s : Store)
    {c : Bool × Bool × Store}
    → fence_reconciles done kind id cutoff recovered s ≡ ok c
    → IsDistinct s.resources
    → IsDistinct c.2.resources
unfolding fence_reconciles
fence_kept done kind id cutoff recovered s h c =
    let (_, rest) = then-ok (refuse done cancelled) _ h in
    subst (λ (x : Bool × Bool × Store). IsDistinct x.2.resources) (ok_inj rest)
      (map-IsDistinct (fence_row kind id cutoff recovered)
        (λ r. fence_row-ClaimsLike kind id cutoff recovered r.meta r.body) s.resources c)

prune_kept :
    (done : Bool) (before : ℕ) (keep : ℤ) (s : Store) {c : ℕ × Store}
    → prune_operations done before keep s ≡ ok c
    → IsDistinct s.resources
    → IsDistinct c.1.resources
unfolding prune_operations
prune_kept done before keep s h c =
    let (_, rest) = then-ok (refuse done cancelled) _ h in
    let (_, rest') = then-ok (refuse (nat_beq before 0 || ltb_ℤ keep (pos 0)) conflict) _ rest in
    answered (λ (r : ℕ × Store). IsDistinct r.1.resources) _ _ _ rest' c
      (prune-IsDistinct before _ _ 0 s c)

recover_kept :
    (done : Bool) (cutoff recovered : ℕ) (limit : ℤ) (s : Store) {c : ℕ × Store}
    → recover_expired_operations done cutoff recovered limit s ≡ ok c
    → IsDistinct s.resources
    → IsDistinct c.1.resources
unfolding recover_expired_operations
recover_kept done cutoff recovered limit s h c =
    let (_, rest) = then-ok (refuse done cancelled) _ h in
    let (_, rest') =
      then-ok (refuse (nat_beq cutoff 0 || nat_beq recovered 0 || ltb_ℤ limit (pos 1)) conflict) _
        rest in
    subst (λ (x : ℕ × Store). IsDistinct x.1.resources) (ok_inj rest')
      (recover-IsDistinct recovered _ s.resources (candidates-Recoverable s.resources cutoff _ c) c)

Step-IsDistinct :
    (p : Platform) (s t : Store) → Step p s t → IsDistinct s.resources → IsDistinct t.resources
Step-IsDistinct p s t (creates now id r key done h) d =
    elim (create_outcome p done now id r key s h) [
      | inl (same, _) ↦ rw same d
      | inr (_, checked, _, _, table) ↦
          written s.resources _ _ table d (created-Fits p s now key id r checked)
    ]
Step-IsDistinct p s t (updates now r expected key done h) d =
    elim (update_outcome p done now r expected key s h) [
      | inl (same, _) ↦ rw same d
      | inr u ↦
          written s.resources _ _ (Updated-table p now r expected s _ u) d
            (rw u.written (updated-Fits p s.resources now u.current (prepare_update p r) u.checked))
    ]
Step-IsDistinct p s t (begins_delete now kind id expected key done h) d =
    elim (begin_delete_outcome p done now kind id expected key s h) [
      | inl (same, _) ↦ rw same d
      | inr b ↦ rw b.table (
          replace-IsDistinct s.resources (tombstone_of now b.current) b.current d
            (lookup-In s.resources kind id b.current b.found_current)
            (tombstone-ClaimsLike now b.current))
    ]
Step-IsDistinct p s t (purges kind id revision done h) d =
    elim (purge_outcome done kind id revision s h) [
      | inl (_, same) ↦ rw same d
      | inr g ↦ rw g.after (remove-IsDistinct s.resources kind id d)
    ]
Step-IsDistinct p s t (claims id expected action owner started cutoff done h) d =
    let o = claim_outcome done id expected action owner started cutoff s h in
    rw o.after (
      replace-IsDistinct s.resources _ _ d (operation-In s.resources id o.stored o.found_stored)
        (claimed-ClaimsLike o.stored owner started))
Step-IsDistinct p s t (renews id expected owner renewed done h) d =
    let o = renew_outcome done id expected owner renewed s h in
    rw o.after (
      replace-IsDistinct s.resources _ _ d (operation-In s.resources id o.stored o.found_stored)
        (renewed-ClaimsLike o.stored renewed))
Step-IsDistinct p s t (fences kind id cutoff recovered done h) d =
    fence_kept done kind id cutoff recovered s h d
Step-IsDistinct p s t (prunes before keep done h) d = prune_kept done before keep s h d
Step-IsDistinct p s t (recovers cutoff recovered limit done h) d =
    recover_kept done cutoff recovered limit s h d
Step-IsDistinct p s t (reconciles now kind id revision error done h) d =
    let o = mark_outcome done now kind id revision error s h in
    rw o.after (
      replace-IsDistinct s.resources _ o.stored d
        (lookup-In s.resources kind id o.stored o.found_stored)
        (rendered-ClaimsLike revision error now o.stored))
Step-IsDistinct p s t (observes id expected seen done h) d =
    let o = observe_outcome done id expected seen s h in
    rw o.after (
      if-keeps (λ (x : Store). IsDistinct x.resources) _ _ _ d
        (replace-IsDistinct s.resources _ _ d (node-In s.resources id o.stored o.found_stored)
          (observed-ClaimsLike o.stored seen)))

-- In any store that a history of method calls makes of an empty one, two resources of one kind
-- with different ids, neither of them empty, have no unique field in common.
pub Reach-IsDistinct : (p : Platform) (s : Store) → Reach p new_memory s → IsDistinct s.resources
Reach-IsDistinct p s r =
    Reach-keeps (λ x. IsDistinct x.resources) p (Step-IsDistinct p) new_memory s r
      (record { apart = λ x y m. elim m [ ] })
