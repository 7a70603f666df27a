-- ===== src/Store/Everywhere.antt =====
-- Properties of single bodies that every write keeps hold throughout any history.
pub mod Histories
use proxmox_ovn.Prelude.{
  leb, drop, ℕ, zero, suc, ◌+◌, pos, ltb_ℤ, nat_beq, int_eq, length, ◌≡◌, refl, sym, ap, subst, ◌∙◌,
  ◌⊎◌, inl, inr, Bool, true, false, not, ◌&&◌, ◌||◌, List, [], ◌∷◌, map, Option, none, some, arith,
  In, ℤ, if-keeps, if◌then◌else◌, ◌==◌,
}
use proxmox_ovn.Text.{Text}
use proxmox_ovn.Platform.{Platform}
use proxmox_ovn.Result.{Check, Result, ok, cancelled, conflict, then-ok, refuse, ok_inj, answered}
use proxmox_ovn.Model.Kind.{Kind}
use proxmox_ovn.Model.Resource.{Metadata, Resource, Body, node, operation, Operation, Node}
use proxmox_ovn.Model.Defaults.{mark_pending, mark_floating_reconciled}
use proxmox_ovn.Store.Table.{Table, Row, lookup, put, remove, operation?, node?, cast_found, rows}
use proxmox_ovn.Store.Table.Laws.{lookup-In, In-put, In-remove}
use proxmox_ovn.Store.Table.Found.{found_row, operation_of, node_of, In-rows}
use proxmox_ovn.Store.Idempotency.{Store, new_memory}
use proxmox_ovn.Store.Create.{check_create, prepare_create, stamp_create, starts_started}
use proxmox_ovn.Store.Update.{check_update, prepare_update, stamp_update}
use proxmox_ovn.Store.Delete.{tombstone_of}
use proxmox_ovn.Store.Lease.{
  valid_lease_owner, claimed_row, renewed_row, failed_row, fence_row, fence_reconciles, is_fenced,
  lease_is_live,
}
use proxmox_ovn.Store.Retention.{
  prune_loop, prune_operations, recover_all, recover_expired_operations, operation_recovery_error,
  terminal_reconcile_operations, to_ℕ, recovery_candidates,
}
use proxmox_ovn.Store.Reconciled.{
  rendered, applied_rendering, failed_rendering, observe_row, seen_since,
}
use proxmox_ovn.Store.History.{
  Step, Reach, Reach-keeps, creates, updates, begins_delete, purges, claims, renews, fences, prunes,
  recovers, reconciles, observes,
}
use proxmox_ovn.Store.Outcomes.{create_outcome, update_outcome}
use proxmox_ovn.Store.Outcomes.Updates.{Updated-table}
use proxmox_ovn.Store.Outcomes.Deletes.{begin_delete_outcome, purge_outcome}
use proxmox_ovn.Store.Outcomes.Operations.{
  claim_outcome, renew_outcome, mark_outcome, observe_outcome,
}

-- Every entry of the table has the property.
pub record Everywhere (P : Body → Type 0) (t : Table) : Type 0 where
  pub at : (r : Resource) → In r t → P r.body

-- What each kind of write must keep.
pub record KeptByWrites (p : Platform) (P : Body → Type 0) : Type 0 where
  pub created :
      (s : Store) (now : ℕ) (key id : Text) (r : Resource)
      → starts_started r.body ≡ false
      → check_create p s (prepare_create p key id r) ≡ ok tt
      → P (stamp_create now (prepare_create p key id r)).body
  pub updated :
      (t : Table) (current r : Resource)
      → check_update p t current (prepare_update p r) ≡ ok tt
      → P (prepare_update p r).body
  pub pending : (b : Body) → P b → P (mark_pending b)
  pub claimed :
      (o : Row Operation) (owner : Text) (started : ℕ)
      → valid_lease_owner owner ≡ true
      → P (operation o.value)
      → P (claimed_row o owner started).body
  pub failed :
      (o : Row Operation) (error : Text) (now : ℕ)
      → P (operation o.value)
      → P (failed_row o error now).body
  pub floating : (error : Bool) (b : Body) → P b → P (mark_floating_reconciled error b)
  pub observed : (n : Row Node) (seen : ℕ) → P (node n.value) → P (observe_row n seen).body

module _ {p : Platform} {P : Body → Type 0} (keeps : KeptByWrites p P) where
  pub put-Everywhere :
      (t : Table) (r : Resource) → Everywhere P t → P r.body → Everywhere P (put t r)
  put-Everywhere t r c h = record {
    at = λ x m. elim (In-put t r x m) [ inl e ↦ rw e h | inr n ↦ c.at x n ];
  }

  pub remove-Everywhere :
      (t : Table) (k : Kind) (i : Text) → Everywhere P t → Everywhere P (remove t k i)
  remove-Everywhere t k i c = record { at = λ x m. c.at x (In-remove t k i x m).0 }

  pub found_at :
      (t : Table) (k : Kind) (i : Text) (r : Resource)
      → Everywhere P t
      → lookup t k i ≡ some r
      → P r.body
  found_at t k i r c h = c.at r (lookup-In t k i r h)

  pub operation_at :
      (t : Table) (id : Text) (o : Row Operation)
      → Everywhere P t
      → cast_found operation? (lookup t Kind.operation id) ≡ some o
      → P (operation o.value)
  operation_at t id o c h =
      let (r, e, v, _) = found_row operation? t Kind.operation id o h in
      subst P (operation_of r.body o.value v) (found_at t Kind.operation id r c e)

  pub node_at :
      (t : Table) (id : Text) (n : Row Node)
      → Everywhere P t
      → cast_found node? (lookup t Kind.node id) ≡ some n
      → P (node n.value)
  node_at t id n c h =
      let (r, e, v, _) = found_row node? t Kind.node id n h in
      subst P (node_of r.body n.value v) (found_at t Kind.node id r c e)

  pub rows_at :
      (t : Table) (o : Row Operation)
      → Everywhere P t
      → In o (rows operation? t)
      → P (operation o.value)
  rows_at t o c m =
      let (r, n, v, _) = In-rows operation? t o m in
      subst P (operation_of r.body o.value v) (c.at r n)

  fence_row_kept :
      (kind : Kind) (id : Text) (cutoff recovered : ℕ) (m : Metadata) (b : Body)
      → P b
      → P (fence_row kind id cutoff recovered (record { meta = m; body = b })).body
  unfolding fence_row
  fence_row_kept kind id cutoff recovered m (operation o) h =
      if-keeps (λ (x : Resource). P x.body)
        (is_fenced kind id o && not (lease_is_live (record { meta = m; value = o }) cutoff)) _ _
        (keeps.failed (record { meta = m; value = o }) _ recovered h) h
  fence_row_kept kind id cutoff recovered m _ h = h

  pub fence-Everywhere :
      (kind : Kind) (id : Text) (cutoff recovered : ℕ) (t : Table) (x : Resource)
      → ((r : Resource) → In r t → P r.body)
      → In x (map (fence_row kind id cutoff recovered) t)
      → P x.body
  fence-Everywhere kind id cutoff recovered [] x c m = elim m [ ]
  fence-Everywhere kind id cutoff recovered (r ∷ t) x c (inl e) =
      rw (← e) (fence_row_kept kind id cutoff recovered r.meta r.body (c r (inl refl)))
  fence-Everywhere kind id cutoff recovered (r ∷ t) x c (inr m) =
      fence-Everywhere kind id cutoff recovered t x (λ y n. c y (inr n)) m

  pub prune-Everywhere :
      (before room : ℕ) (operations : List (Row Operation)) (pruned : ℕ) (s : Store)
      → Everywhere P s.resources
      → Everywhere P (prune_loop before room operations pruned s).1.resources
  unfolding prune_loop
  prune-Everywhere before room [] pruned s c = c
  prune-Everywhere before zero (o ∷ operations) pruned s c = c
  prune-Everywhere before (suc room) (o ∷ operations) pruned s c =
      if-keeps (λ (r : ℕ × Store). Everywhere P r.1.resources) _ _ _
        (prune-Everywhere before room operations (pruned + 1) _
          (remove-Everywhere s.resources Kind.operation o.meta.id c))
        (prune-Everywhere before (suc room) operations pruned s c)

  pub recover-Everywhere :
      (completed : ℕ) (operations : List (Row Operation)) (t : Table)
      → ((o : Row Operation) → In o operations → P (operation o.value))
      → Everywhere P t
      → Everywhere P (recover_all completed operations t)
  unfolding recover_all
  recover-Everywhere completed [] t h c = c
  recover-Everywhere completed (o ∷ operations) t h c =
      recover-Everywhere completed operations _ (λ x m. h x (inr m))
        (put-Everywhere t _ c (keeps.failed o _ completed (h o (inl refl))))

  pub rendered_kept :
      (revision : ℤ) (error : Option Text) (now : ℕ) (r : Resource)
      → P r.body
      → P (rendered revision error now r).body
  unfolding rendered applied_rendering failed_rendering
  rendered_kept revision none now r h =
      if-keeps (λ (x : Resource). P x.body) (revision == r.meta.revision) _ _
        (keeps.floating false r.body h) h
  rendered_kept revision (some m) now r h =
      if-keeps (λ (x : Resource). P x.body) (revision == r.meta.revision) _ _
        (keeps.floating true r.body h) h
