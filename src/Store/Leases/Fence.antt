-- ===== src/Store/Leases/Fence.antt =====
-- FenceReconciles: when it reports no live claim, no reconcile of the target is left running.
use proxmox_ovn.Prelude.{
  ℕ, ◌≡◌, refl, ap, ◌∙◌, inl, inr, Bool, false, ◌&&◌, [], ◌∷◌, map, some, arith, any, Bool-cases,
  or-false,
}
use proxmox_ovn.Text.{Text, text}
use proxmox_ovn.Result.{ok, cancelled, then-ok, refuse, ok_inj}
use proxmox_ovn.Model.Kind.{Kind}
use proxmox_ovn.Model.Resource.{Metadata, Body, Operation, OperationStatus, operation}
use proxmox_ovn.Store.Table.{Table, Row, rows, as_row, operation?}
use proxmox_ovn.Store.Idempotency.{Store}
use proxmox_ovn.Store.Lease.{is_fenced, lease_is_live, fence_row, failed_row, fence_reconciles}

-- An operation that has failed is no running reconcile.
failed_unfenced :
    (kind : Kind) (id : Text) (o : Row Operation) (e : Text) (now : ℕ)
    → (x : Row Operation) × (as_row operation? (failed_row o e now) ≡ some x)
      × (is_fenced kind id x.value ≡ false)
unfolding failed_row is_fenced
failed_unfenced kind id o e now = (
  record {
    meta = (failed_row o e now).meta;
    value = record o.value {
      operation_status = OperationStatus.failed;
      error = e;
      completed_at = some now;
    };
  },
  refl,
  ground arith,
)

-- An operation after the fence: it is no running reconcile of the target.
fenced_row :
    (kind : Kind) (id : Text) (cutoff recovered : ℕ) (m : Metadata) (o : Operation)
    → (is_fenced kind id o && lease_is_live (record { meta = m; value = o }) cutoff) ≡ false
    → (x : Row Operation) × (as_row operation?
          (fence_row kind id cutoff recovered (record { meta = m; body = operation o }))
        ≡ some x)
      × (is_fenced kind id x.value ≡ false)
unfolding fence_row
fenced_row kind id cutoff recovered m o h = elim (Bool-cases (is_fenced kind id o)) [
  | inl fenced ↦
      let (x, e, f) =
        failed_unfenced kind id (record { meta = m; value = o })
          (text "reconcile lease expired while target was deleting") recovered in
      let idle : lease_is_live (record { meta = m; value = o }) cutoff ≡ false = ground arith in
      (x, rw (fenced, idle) e, f)
  | inr other ↦ (record { meta = m; value = o }, rw other refl, other)
]

fenced_entry :
    (kind : Kind) (id : Text) (cutoff recovered : ℕ) (m : Metadata) (b : Body) (t u : Table)
    → any
        (λ (o : Row Operation). is_fenced kind id o.value && lease_is_live o cutoff)
        (rows operation? ((record { meta = m; body = b }) ∷ t))
      ≡ false
    → (any
            (λ (o : Row Operation). is_fenced kind id o.value && lease_is_live o cutoff)
            (rows operation? t)
          ≡ false
        → any (λ (o : Row Operation). is_fenced kind id o.value) (rows operation? u) ≡ false)
    → any
        (λ (o : Row Operation). is_fenced kind id o.value)
        (rows operation? (fence_row kind id cutoff recovered (record { meta = m; body = b }) ∷ u))
      ≡ false
unfolding rows fence_row
fenced_entry kind id cutoff recovered m (operation o) t u h rest =
    let (mine, others) = or-false _ _ h in
    let (x, e, f) = fenced_row kind id cutoff recovered m o mine in rw (e, f, rest others) refl
fenced_entry kind id cutoff recovered m _ t u h rest = rest h

fenced_table :
    (kind : Kind) (id : Text) (cutoff recovered : ℕ) (t : Table)
    → any
        (λ (o : Row Operation). is_fenced kind id o.value && lease_is_live o cutoff)
        (rows operation? t)
      ≡ false
    → any
        (λ (o : Row Operation). is_fenced kind id o.value)
        (rows operation? (map (fence_row kind id cutoff recovered) t))
      ≡ false
unfolding rows
fenced_table kind id cutoff recovered [] h = refl
fenced_table kind id cutoff recovered (r ∷ t) h =
    fenced_entry kind id cutoff recovered r.meta r.body t
      (map (fence_row kind id cutoff recovered) t) h (fenced_table kind id cutoff recovered t)

-- After a fence that reports no live claim, no operation of the store is a running reconcile
-- of the target.
pub fence_reconciles_clears :
    (done : Bool) (kind : Kind) (id : Text) (cutoff recovered : ℕ) (s : Store)
    {c : Bool × Bool × Store}
    → fence_reconciles done kind id cutoff recovered s ≡ ok c
    → c.0 ≡ false
    → any (λ (o : Row Operation). is_fenced kind id o.value) (rows operation? c.2.resources) ≡ false
unfolding fence_reconciles
fence_reconciles_clears done kind id cutoff recovered s {c} h idle =
    let (_, rest) = then-ok (refuse done cancelled) _ h in
    let e = ok_inj rest in
    rw (← e) (
      fenced_table kind id cutoff recovered s.resources
        (ap (λ (x : Bool × Bool × Store). x.0) e ∙ idle))
