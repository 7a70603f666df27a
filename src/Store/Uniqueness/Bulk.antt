-- ===== src/Store/Uniqueness/Bulk.antt =====
-- Fences, prunings and recoveries keep the table free of conflicts.
use proxmox_ovn.Prelude.{
  ℕ, zero, suc, ◌+◌, int_eq, ◌≡◌, refl, ap, subst, ◌∙◌, inl, inr, not, ◌&&◌, List, [], ◌∷◌, some,
  In, if-keeps,
}
use proxmox_ovn.Text.{Text, text_eq}
use proxmox_ovn.Model.Kind.{Kind, kind_eq}
use proxmox_ovn.Model.Resource.{Metadata, Resource, Body, node, operation, Operation, Node}
use proxmox_ovn.Store.Table.{Table, Row, lookup, put, rows, cast_found, operation?, node?}
use proxmox_ovn.Store.Table.Laws.{lookup-In, In-put}
use proxmox_ovn.Store.Table.Found.{found_row, operation_of, node_of, In-rows}
use proxmox_ovn.Store.Idempotency.{Store}
use proxmox_ovn.Store.Lease.{failed_row, fence_row, is_fenced, lease_is_live}
use proxmox_ovn.Store.Retention.{prune_loop, recover_all, operation_recovery_error}
use proxmox_ovn.Store.Uniqueness.Rows.{
  AreDistinct, IsDistinct, Fits, put-IsDistinct, remove-IsDistinct, ClaimsLike, ClaimsLike-refl,
  ClaimsLike-AreDistinct,
}
use proxmox_ovn.Store.Uniqueness.Claims.{row_resource, failed-ClaimsLike}

-- A resource with these parts.
resource_of :
    (r : Resource) (m : Metadata) (b : Body) → r.meta ≡ m → r.body ≡ b → r ≡ row_resource m b
resource_of r m b e f = ap (λ (x : Metadata). row_resource x r.body) e ∙ ap (row_resource m) f

pub operation-In :
    (t : Table) (id : Text) (o : Row Operation)
    → cast_found operation? (lookup t Kind.operation id) ≡ some o
    → In (row_resource o.meta (operation o.value)) t
operation-In t id o h =
    let (r, e, v, m) = found_row operation? t Kind.operation id o h in
    subst (λ x. In x t) (resource_of r o.meta (operation o.value) m (operation_of r.body o.value v))
      (lookup-In t Kind.operation id r e)

pub node-In :
    (t : Table) (id : Text) (n : Row Node)
    → cast_found node? (lookup t Kind.node id) ≡ some n
    → In (row_resource n.meta (node n.value)) t
node-In t id n h =
    let (r, e, v, m) = found_row node? t Kind.node id n h in
    subst (λ x. In x t) (resource_of r n.meta (node n.value) m (node_of r.body n.value v))
      (lookup-In t Kind.node id r e)

pub row-In :
    (t : Table) (o : Row Operation)
    → In o (rows operation? t)
    → In (row_resource o.meta (operation o.value)) t
row-In t o h =
    let (r, e, v, m) = In-rows operation? t o h in
    subst (λ x. In x t) (resource_of r o.meta (operation o.value) m (operation_of r.body o.value v))
      e

pub fence_row-ClaimsLike :
    (kind : Kind) (id : Text) (cutoff recovered : ℕ) (m : Metadata) (b : Body)
    → ClaimsLike (fence_row kind id cutoff recovered (row_resource m b)) (row_resource m b)
unfolding fence_row
fence_row-ClaimsLike kind id cutoff recovered m (operation o) =
    if-keeps (λ x. ClaimsLike x (row_resource m (operation o)))
      (is_fenced kind id o && not (lease_is_live (record { meta = m; value = o }) cutoff)) _ _
      (failed-ClaimsLike (record { meta = m; value = o }) _ recovered)
      (ClaimsLike-refl (row_resource m (operation o)))
fence_row-ClaimsLike kind id cutoff recovered m b = ClaimsLike-refl (row_resource m b)

pub prune-IsDistinct :
    (before room : ℕ) (operations : List (Row Operation)) (pruned : ℕ) (s : Store)
    → IsDistinct s.resources
    → IsDistinct (prune_loop before room operations pruned s).1.resources
unfolding prune_loop
prune-IsDistinct before room [] pruned s d = d
prune-IsDistinct before zero (o ∷ operations) pruned s d = d
prune-IsDistinct before (suc room) (o ∷ operations) pruned s d =
    if-keeps (λ (r : ℕ × Store). IsDistinct r.1.resources) _ _ _
      (prune-IsDistinct before room operations (pruned + 1) _
        (remove-IsDistinct s.resources Kind.operation o.meta.id d))
      (prune-IsDistinct before (suc room) operations pruned s d)

-- The operations of a list and the table, each distinct from the others.
pub record Recoverable (operations : List (Row Operation)) (t : Table) : Type 0 where
  pub fits :
      (o : Row Operation) → In o operations → Fits (row_resource o.meta (operation o.value)) t
  pub pairs :
      (o x : Row Operation)
      → In o operations
      → In x operations
      → AreDistinct
          (row_resource o.meta (operation o.value))
          (row_resource x.meta (operation x.value))

pub recover-IsDistinct :
    (completed : ℕ) (operations : List (Row Operation)) (t : Table)
    → Recoverable operations t
    → IsDistinct t
    → IsDistinct (recover_all completed operations t)
unfolding recover_all
recover-IsDistinct completed [] t h d = d
recover-IsDistinct completed (o ∷ operations) t h d =
    let old = row_resource o.meta (operation o.value) in
    let new = failed_row o (operation_recovery_error o.value) completed in
    let like = failed-ClaimsLike o (operation_recovery_error o.value) completed in
    recover-IsDistinct completed operations (put t new)
      (record {
        fits = λ q m x n. elim (In-put t new x n) [
          | inl e ↦ rw e (
              ClaimsLike-AreDistinct (row_resource q.meta (operation q.value))
                (row_resource q.meta (operation q.value)) new old (ClaimsLike-refl _) like
                (h.pairs q o (inr m) (inl refl)))
          | inr n' ↦ h.fits q (inr m) x n'
        ];
        pairs = λ q x m n. h.pairs q x (inr m) (inr n);
      })
      (put-IsDistinct t new d (λ x n.
        ClaimsLike-AreDistinct new old x x like (ClaimsLike-refl x) (h.fits o (inl refl) x n)))
