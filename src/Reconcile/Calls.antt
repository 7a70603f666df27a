-- ===== src/Reconcile/Calls.antt =====
-- The methods of the store as the controller calls them, and that each is a step of a history.
use proxmox_ovn.Prelude.{ℕ, Bool, List, Option, ℤ}
use proxmox_ovn.Text.{Text}
use proxmox_ovn.Platform.{Platform}
use proxmox_ovn.Result.{ok, ◌>>=◌}
use proxmox_ovn.Model.Kind.{Kind}
use proxmox_ovn.Model.Resource.{Resource}
use proxmox_ovn.Store.Create.{create}
use proxmox_ovn.Store.Update.{update}
use proxmox_ovn.Store.Delete.{purge}
use proxmox_ovn.Store.Lease.{claim_operation, fence_reconciles}
use proxmox_ovn.Store.Retention.{prune_operations, recover_expired_operations}
use proxmox_ovn.Store.Reconciled.{mark_reconciled}
use proxmox_ovn.Store.Read.{ListOptions, get, snapshot}
use proxmox_ovn.Reconcile.World.{Method}

abbrev pub get_method : Kind → Text → Method Resource
get_method kind id now done s = get done kind id s >>= λ r. ok (r, s)

abbrev pub snapshot_method : List Kind → ListOptions → Method (List (Kind × List Resource))
snapshot_method kinds options now done s = snapshot done kinds options s >>= λ found. ok (found, s)

abbrev pub purge_method : Kind → Text → ℤ → Method (Unit {0})
purge_method kind id revision now done s = purge done kind id revision s >>= λ s'. ok (tt, s')

abbrev pub claim_method : Text → ℤ → Text → Text → ℕ → ℕ → Method Resource
claim_method id expected action owner started cutoff now done s =
    claim_operation done id expected action owner started cutoff s

abbrev pub fence_method : Kind → Text → ℕ → ℕ → Method (Bool × Bool)
fence_method kind id cutoff recovered now done s =
    fence_reconciles done kind id cutoff recovered s >>= λ (active, recovered, s').
    ok ((active, recovered), s')

abbrev pub mark_method : Kind → Text → ℤ → Option Text → Method Resource
mark_method kind id revision error now done s = mark_reconciled done now kind id revision error s

abbrev pub prune_method : ℕ → ℤ → Method ℕ
prune_method before keep now done s = prune_operations done before keep s

abbrev pub recover_method : ℕ → ℕ → ℤ → Method ℕ
recover_method cutoff recovered limit now done s =
    recover_expired_operations done cutoff recovered limit s

module _ (p : Platform) where
  abbrev pub create_method : Text → Resource → Text → Method (Resource × Bool)
  create_method id r key now done s =
      create p done now id r key s >>= λ w. ok ((w.resource, w.replayed), w.store)

  abbrev pub update_method : Resource → ℤ → Text → Method (Resource × Bool)
  update_method r expected key now done s =
      update p done now r expected key s >>= λ w. ok ((w.resource, w.replayed), w.store)
