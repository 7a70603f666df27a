-- ===== src/Store/Integrity/Histories.antt =====
-- Every method keeps the table closed, so every history from an empty store does.
use proxmox_ovn.Prelude.{
  ℕ, zero, suc, ◌+◌, pos, ltb_ℤ, nat_beq, int_eq, ◌≡◌, sym, subst, inl, inr, Bool, true, false,
  ◌||◌, List, [], ◌∷◌, Option, none, some, ℤ, if-keeps, ◌==◌,
}
use proxmox_ovn.Text.{Text}
use proxmox_ovn.Platform.{Platform}
use proxmox_ovn.Result.{ok, cancelled, conflict, then-ok, refuse, ok_inj, answered}
use proxmox_ovn.Model.Kind.{Kind, kind_eq}
use proxmox_ovn.Model.Resource.{Resource, Operation, Node}
use proxmox_ovn.Store.Table.{Table, Row, put}
use proxmox_ovn.Store.Idempotency.{Store, new_memory}
use proxmox_ovn.Store.Create.{prepare_create}
use proxmox_ovn.Store.Update.{prepare_update}
use proxmox_ovn.Store.Delete.{tombstone_of}
use proxmox_ovn.Store.Lease.{claimed_row, renewed_row, failed_row, fence_row, fence_reconciles}
use proxmox_ovn.Store.Retention.{
  prune_loop, prune_operations, recover_all, recover_expired_operations,
}
use proxmox_ovn.Store.Reconciled.{rendered, applied_rendering, failed_rendering, observe_row}
use proxmox_ovn.Store.History.{
  Step, Reach, Reach-keeps, creates, updates, begins_delete, purges, claims, renews, fences, prunes,
  recovers, reconciles, observes,
}
use proxmox_ovn.Store.Outcomes.{create_outcome, update_outcome}
use proxmox_ovn.Store.Outcomes.Updates.{Updated-table}
use proxmox_ovn.Store.Outcomes.Deletes.{begin_delete_outcome, purge_outcome}
use proxmox_ovn.Store.Outcomes.Operations.{
  claim_outcome, renew_outcome, mark_outcome, observe_outcome,
}
use proxmox_ovn.Store.Integrity.{Resolves, IsClosed}
use proxmox_ovn.Store.Integrity.Writes.{
  put-IsClosed, remove-IsClosed, operation-Resolves, node-Resolves, references-mark_pending,
  references-mark_floating, Resolves-same,
}
use proxmox_ovn.Store.Integrity.Rewrites.{
  created-Resolves, updated-Resolves, unreferenced-has_referrer, found-Resolves, map-IsClosed,
  fence_row-SameKey, references-fence_row, operation_unreferenced,
}

prune_loop-IsClosed :
    (before room : ℕ) (operations : List (Row Operation)) (pruned : ℕ) (s : Store)
    → IsClosed s.resources
    → IsClosed (prune_loop before room operations pruned s).1.resources
unfolding prune_loop
prune_loop-IsClosed before room [] pruned s c = c
prune_loop-IsClosed before zero (o ∷ operations) pruned s c = c
prune_loop-IsClosed before (suc room) (o ∷ operations) pruned s c =
    if-keeps (λ (r : ℕ × Store). IsClosed r.1.resources) _ _ _
      (prune_loop-IsClosed before room operations (pruned + 1) _ (
        remove-IsClosed s.resources Kind.operation o.meta.id c
          (operation_unreferenced s.resources o.meta.id)))
      (prune_loop-IsClosed before (suc room) operations pruned s c)

failed-Resolves :
    (t : Table) (o : Row Operation) (e : Text) (now : ℕ) → Resolves t (failed_row o e now).body
unfolding failed_row
failed-Resolves t o e now = operation-Resolves t _

recover_all-IsClosed :
    (completed : ℕ) (operations : List (Row Operation)) (t : Table)
    → IsClosed t
    → IsClosed (recover_all completed operations t)
unfolding recover_all
recover_all-IsClosed completed [] t c = c
recover_all-IsClosed completed (o ∷ operations) t c =
    recover_all-IsClosed completed operations _
      (put-IsClosed t _ c (failed-Resolves t o _ completed))

rendered-Resolves :
    (t : Table) (revision : ℤ) (error : Option Text) (now : ℕ) (r : Resource)
    → Resolves t r.body
    → Resolves t (rendered revision error now r).body
unfolding rendered applied_rendering failed_rendering
rendered-Resolves t revision none now r h =
    if-keeps (λ (x : Resource). Resolves t x.body) (revision == r.meta.revision) _ _
      (Resolves-same t r.body _ (references-mark_floating false r.body) h) h
rendered-Resolves t revision (some m) now r h =
    if-keeps (λ (x : Resource). Resolves t x.body) (revision == r.meta.revision) _ _
      (Resolves-same t r.body _ (references-mark_floating true r.body) h) h

prune_operations-IsClosed :
    (done : Bool) (before : ℕ) (keep : ℤ) (s : Store) {c : ℕ × Store}
    → prune_operations done before keep s ≡ ok c
    → IsClosed s.resources
    → IsClosed c.1.resources
unfolding prune_operations
prune_operations-IsClosed done before keep s {c} h closed =
    let (_, rest) = then-ok (refuse done cancelled) _ h in
    let (_, rest') = then-ok (refuse (nat_beq before 0 || ltb_ℤ keep (pos 0)) conflict) _ rest in
    answered (λ (r : ℕ × Store). IsClosed r.1.resources) _ _ _ rest' closed
      (prune_loop-IsClosed before _ _ 0 s closed)

recover-IsClosed :
    (done : Bool) (cutoff recovered : ℕ) (limit : ℤ) (s : Store) {c : ℕ × Store}
    → recover_expired_operations done cutoff recovered limit s ≡ ok c
    → IsClosed s.resources
    → IsClosed c.1.resources
unfolding recover_expired_operations
recover-IsClosed done cutoff recovered limit s {c} h closed =
    let (_, rest) = then-ok (refuse done cancelled) _ h in
    let (_, rest') =
      then-ok (refuse (nat_beq cutoff 0 || nat_beq recovered 0 || ltb_ℤ limit (pos 1)) conflict) _
        rest in
    subst (λ (x : ℕ × Store). IsClosed x.1.resources) (ok_inj rest')
      (recover_all-IsClosed recovered _ s.resources closed)

fence-IsClosed :
    (done : Bool) (kind : Kind) (id : Text) (cutoff recovered : ℕ) (s : Store)
    {c : Bool × Bool × Store}
    → fence_reconciles done kind id cutoff recovered s ≡ ok c
    → IsClosed s.resources
    → IsClosed c.2.resources
unfolding fence_reconciles
fence-IsClosed done kind id cutoff recovered s {c} h closed =
    let (_, rest) = then-ok (refuse done cancelled) _ h in
    subst (λ (x : Bool × Bool × Store). IsClosed x.2.resources) (ok_inj rest)
      (map-IsClosed (fence_row kind id cutoff recovered)
        (λ r. fence_row-SameKey kind id cutoff recovered r.meta r.body)
        (λ r. references-fence_row kind id cutoff recovered r.meta r.body) s.resources closed)

-- A write that an outcome reports.
written-IsClosed :
    (t u : Table) (r : Resource) → u ≡ put t r → IsClosed t → Resolves t r.body → IsClosed u
written-IsClosed t u r e c h = subst IsClosed (sym e) (put-IsClosed t r c h)

claimed-Resolves :
    (t : Table) (o : Row Operation) (owner : Text) (now : ℕ)
    → Resolves t (claimed_row o owner now).body
unfolding claimed_row
claimed-Resolves t o owner now = operation-Resolves t _

renewed-Resolves : (t : Table) (o : Row Operation) (now : ℕ) → Resolves t (renewed_row o now).body
unfolding renewed_row
renewed-Resolves t o now = operation-Resolves t _

observed-Resolves : (t : Table) (n : Row Node) (seen : ℕ) → Resolves t (observe_row n seen).body
unfolding observe_row
observed-Resolves t n seen = node-Resolves t _

buried-Resolves :
    (t : Table) (now : ℕ) (current : Resource)
    → Resolves t current.body
    → Resolves t (tombstone_of now current).body
unfolding tombstone_of
buried-Resolves t now current h =
    Resolves-same t current.body _ (references-mark_pending current.body) h

-- Every method keeps the table closed.
Step-IsClosed :
    (p : Platform) (s t : Store) → Step p s t → IsClosed s.resources → IsClosed t.resources
Step-IsClosed p s t (creates now id r key done h) c =
    elim (create_outcome p done now id r key s h) [
      | inl (same, _) ↦ rw same c
      | inr (_, checked, _, _, table) ↦
          written-IsClosed s.resources _ _ table c
            (created-Resolves p s now (prepare_create p key id r) checked)
    ]
Step-IsClosed p s t (updates now r expected key done h) c =
    elim (update_outcome p done now r expected key s h) [
      | inl (same, _) ↦ rw same c
      | inr u ↦ written-IsClosed s.resources _ _ (Updated-table p now r expected s _ u) c (
          rw u.written
            (updated-Resolves p s.resources now u.current (prepare_update p r) u.checked))
    ]
Step-IsClosed p s t (begins_delete now kind id expected key done h) c =
    elim (begin_delete_outcome p done now kind id expected key s h) [
      | inl (same, _) ↦ rw same c
      | inr b ↦ written-IsClosed s.resources _ _ b.table c (
          buried-Resolves s.resources now b.current
            (found-Resolves s.resources kind id b.current c b.found_current))
    ]
Step-IsClosed p s t (purges kind id revision done h) c =
    elim (purge_outcome done kind id revision s h) [
      | inl (_, same) ↦ rw same c
      | inr g ↦ rw g.after (
          remove-IsClosed s.resources kind id c
            (unreferenced-has_referrer s.resources kind id g.free))
    ]
Step-IsClosed p s t (claims id expected action owner started cutoff done h) c =
    let o = claim_outcome done id expected action owner started cutoff s h in
    rw o.after (put-IsClosed s.resources _ c (claimed-Resolves s.resources o.stored owner started))
Step-IsClosed p s t (renews id expected owner renewed done h) c =
    let o = renew_outcome done id expected owner renewed s h in
    rw o.after (put-IsClosed s.resources _ c (renewed-Resolves s.resources o.stored renewed))
Step-IsClosed p s t (fences kind id cutoff recovered done h) c =
    fence-IsClosed done kind id cutoff recovered s h c
Step-IsClosed p s t (prunes before keep done h) c = prune_operations-IsClosed done before keep s h c
Step-IsClosed p s t (recovers cutoff recovered limit done h) c =
    recover-IsClosed done cutoff recovered limit s h c
Step-IsClosed p s t (reconciles now kind id revision error done h) c =
    let o = mark_outcome done now kind id revision error s h in
    rw o.after (
      put-IsClosed s.resources _ c (
        rendered-Resolves s.resources revision error now o.stored
          (found-Resolves s.resources kind id o.stored c o.found_stored)))
Step-IsClosed p s t (observes id expected seen done h) c =
    let o = observe_outcome done id expected seen s h in
    rw o.after (
      if-keeps (λ (x : Store). IsClosed x.resources) _ _ _ c
        (put-IsClosed s.resources _ c (observed-Resolves s.resources o.stored seen)))

-- Whatever a history of method calls does to an empty store, every resource that another one
-- names is there.
pub Reach-IsClosed : (p : Platform) (s : Store) → Reach p new_memory s → IsClosed s.resources
Reach-IsClosed p s r =
    Reach-keeps (λ x. IsClosed x.resources) p (Step-IsClosed p) new_memory s r
      (record { resolves = λ x m. elim m [ ] })
