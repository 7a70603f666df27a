-- ===== src/Store/Leases/Owners.antt =====
-- Only a claim starts a reconcile or a delete: whatever runs has an owner and a start.
use proxmox_ovn.Prelude.{ℕ, ◌≡◌, refl, Bool, true, false, not, ◌&&◌, ◌||◌, arith}
use proxmox_ovn.Text.{Text}
use proxmox_ovn.Platform.{Platform}
use proxmox_ovn.Result.{ok}
use proxmox_ovn.Model.Resource.{Metadata, Body, Operation, Node, port, floating_ip, operation}
use proxmox_ovn.Model.Defaults.{mark_pending, mark_floating_reconciled, set_defaults, default_body}
use proxmox_ovn.Model.Validation.Policy.{lease_protected_action, is_running}
use proxmox_ovn.Store.Table.{Table, Row, found}
use proxmox_ovn.Store.Idempotency.{Store, new_memory}
use proxmox_ovn.Store.Create.{
  prepare_create, stamp_create, starts_started, name_port, operation_key,
}
use proxmox_ovn.Store.Update.{check_update, prepare_update}
use proxmox_ovn.Store.Lease.{valid_lease_owner, claimed_row, failed_row}
use proxmox_ovn.Store.Reconciled.{observe_row}
use proxmox_ovn.Store.History.{Reach}
use proxmox_ovn.Store.Everywhere.{Everywhere}
use proxmox_ovn.Store.Everywhere.Histories.{Reach-Everywhere}

-- A running reconcile or delete has a valid owner and a start.
unfoldable pub leased : Body → Bool
leased (operation o) =
    not (lease_protected_action o.action && is_running o.operation_status)
    || (valid_lease_owner o.lease_owner && found o.started_at)
leased _ = true

abbrev pub IsLeased : Body → Type 0
IsLeased b = leased b ≡ true

created-IsLeased :
    (p : Platform) (now : ℕ) (key id : Text) (m : Metadata) (b : Body)
    → starts_started b ≡ false
    → IsLeased (stamp_create now (prepare_create p key id (record { meta = m; body = b }))).body
unfolding leased stamp_create prepare_create starts_started name_port operation_key set_defaults
    default_body mark_pending
created-IsLeased p now key id m (operation o) h = ground arith
created-IsLeased p now key id m (floating_ip o) h = refl
created-IsLeased p now key id m (port o) h = refl
created-IsLeased p now key id m _ h = refl

updated-IsLeased :
    (p : Platform) (t : Table) (current : Body) (m n : Metadata) (b : Body)
    → check_update p t (record { meta = m; body = current }) (record { meta = n; body = b }) ≡ ok tt
    → IsLeased b
unfolding leased check_update
updated-IsLeased p t current m n (operation o) h = ground arith
updated-IsLeased p t current m n _ h = refl

pending-IsLeased : (b : Body) → IsLeased b → IsLeased (mark_pending b)
unfolding leased mark_pending
pending-IsLeased (floating_ip f) h = refl
pending-IsLeased _ h = h

floating-IsLeased :
    (error : Bool) (b : Body) → IsLeased b → IsLeased (mark_floating_reconciled error b)
unfolding leased mark_floating_reconciled
floating-IsLeased error (floating_ip f) h = refl
floating-IsLeased error _ h = h

claimed-IsLeased :
    (o : Row Operation) (owner : Text) (started : ℕ)
    → valid_lease_owner owner ≡ true
    → IsLeased (claimed_row o owner started).body
unfolding leased claimed_row
claimed-IsLeased o owner started h = ground arith

failed-IsLeased :
    (o : Row Operation) (error : Text) (now : ℕ) → IsLeased (failed_row o error now).body
unfolding leased failed_row
failed-IsLeased o error now = ground arith

observed-IsLeased : (n : Row Node) (seen : ℕ) → IsLeased (observe_row n seen).body
unfolding leased observe_row
observed-IsLeased n seen = refl

-- In any store that a history of method calls makes of an empty one, a running reconcile or
-- delete has a valid lease owner and a start.
pub Reach-IsLeased :
    (p : Platform) (s : Store) → Reach p new_memory s → Everywhere IsLeased s.resources
Reach-IsLeased p s =
    Reach-Everywhere
      (record {
        created = λ s now key id r h _. created-IsLeased p now key id r.meta r.body h;
        updated = λ t current r h.
            updated-IsLeased p t current.body current.meta (prepare_update p r).meta
              (prepare_update p r).body h;
        pending = pending-IsLeased;
        claimed = λ o owner started h _. claimed-IsLeased o owner started h;
        failed = λ o error now _. failed-IsLeased o error now;
        floating = floating-IsLeased;
        observed = λ n seen _. observed-IsLeased n seen;
      })
      s
