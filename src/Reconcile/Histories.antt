-- ===== src/Reconcile/Histories.antt =====
-- Whole runs of reconcileAll and reconcile (internal/reconcile/reconcile.go) among other managers.
use proxmox_ovn.Prelude.{ℕ, ◌-◌, ◌≡◌, Bool, true, false, List, [], ◌∷◌, pos}
use proxmox_ovn.Text.{Text}
use proxmox_ovn.Result.{Result, ok, err}
use proxmox_ovn.Model.Kind.{Kind}
use proxmox_ovn.Model.Resource.{Resource}
use proxmox_ovn.Store.Idempotency.{Store}
use proxmox_ovn.Reconcile.World.{World, Environment, Run}
use proxmox_ovn.Reconcile.Work.{is_deleting}
use proxmox_ovn.Reconcile.Controller.{Controller}
use proxmox_ovn.Reconcile.Audit.{
  audit_kind, audit_kinds, audit_found, reconcile_all, is_recent, listed, dependency_order,
  no_options,
}
use proxmox_ovn.Reconcile.Keeps.{
  IsInvariant, Keeps, call-Keeps, bind-Keeps, if-Keeps, return-Keeps, clock-Keeps,
}
use proxmox_ovn.Reconcile.Methods.{
  recover_method-IsMethod, snapshot_method-IsMethod, prune_method-IsMethod,
}
use proxmox_ovn.Reconcile.Invariants.{reconcile-Keeps}

module _ {W : Type 0} (env : Environment W) (c : Controller) (I : Store → W → Type 0)
    (inv : IsInvariant env I) where
  abbrev K : {A : Type 0} → Run W A → Type 0
  K m = Keeps env I inv m

  audit_kind-Keeps :
      (freshness fresh_since : ℕ) (recent : List Text) (kind : Kind) (rs : List Resource)
      → K (audit_kind env c freshness fresh_since recent kind rs)
  unfolding audit_kind
  audit_kind-Keeps freshness fresh_since recent kind [] = return-Keeps env I inv _
  audit_kind-Keeps freshness fresh_since recent kind (r ∷ rs) =
      bind-Keeps env I inv _ _
        (if-Keeps env I inv (is_recent freshness recent kind r) _ _ (λ _. return-Keeps env I inv _)
          (λ _. reconcile-Keeps env c I inv true fresh_since kind r.meta.id))
        λ failure.
          bind-Keeps env I inv _ _ (audit_kind-Keeps freshness fresh_since recent kind rs)
            (λ failures. return-Keeps env I inv _)

  audit_kinds-Keeps :
      (freshness fresh_since : ℕ) (recent : List Text) (found : List (Kind × List Resource))
      (kinds : List Kind)
      → K (audit_kinds env c freshness fresh_since recent found kinds)
  unfolding audit_kinds
  audit_kinds-Keeps freshness fresh_since recent found [] = return-Keeps env I inv _
  audit_kinds-Keeps freshness fresh_since recent found (kind ∷ kinds) =
      bind-Keeps env I inv _ _
        (audit_kind-Keeps freshness fresh_since recent kind (listed found kind))
        λ failures.
          bind-Keeps env I inv _ _ (audit_kinds-Keeps freshness fresh_since recent found kinds)
            (λ more. return-Keeps env I inv _)

  audit_found-Keeps :
      (freshness now : ℕ) (found : Result (List (Kind × List Resource)))
      → K (audit_found env c freshness now found)
  audit_found-Keeps freshness now (err e) = return-Keeps env I inv _
  audit_found-Keeps freshness now (ok found) =
      audit_kinds-Keeps freshness _ _ found dependency_order

  pub reconcile_all-Keeps : (freshness : ℕ) → K (reconcile_all env c freshness)
  unfolding reconcile_all
  reconcile_all-Keeps freshness = bind-Keeps env I inv _ _ (clock-Keeps env I inv) λ now.
      bind-Keeps env I inv _ _
        (call-Keeps env I inv _ (recover_method-IsMethod env I inv (now - c.lease) now (pos 256)))
        λ recovered.
          bind-Keeps env I inv _ _
            (call-Keeps env I inv _ (snapshot_method-IsMethod env I inv _ no_options))
            λ found. bind-Keeps env I inv _ _ (audit_found-Keeps freshness now found) λ failures.
              bind-Keeps env I inv _ _
                (call-Keeps env I inv _ (prune_method-IsMethod env I inv (now - c.age) c.keep))
                (λ pruned. return-Keeps env I inv _)

-- Whatever holds of the state behind the renderer, and is kept by the other managers, by
-- deletions and by renderings of resources that are no tombstones, still holds after a pass of
-- the controller: it never renders a tombstone.
pub reconcile_all_spares_tombstones :
    {W : Type 0} (env : Environment W) (c : Controller) (Q : W → Type 0)
    → ((n : ℕ) (s : Store) (b : W) → Q b → Q (env.others n s b).1)
    → ((done : Bool) (r : Resource) (b : W)
        → is_deleting r ≡ false
        → Q b
        → Q (env.render done r b).1)
    → ((done : Bool) (r : Resource) (b : W) → Q b → Q (env.delete_rendered done r b).1)
    → (freshness : ℕ) (w : World W) → Q w.backend
    → Q (reconcile_all env c freshness w).1.backend
reconcile_all_spares_tombstones env c Q others renders deletes freshness w q =
    (reconcile_all-Keeps env c (λ s b. Q b)
        (record {
          kept_by_others = λ n s b h. others n s b h;
          kept_by_step = λ s t b step h. h;
          kept_by_render = λ done r s b live h. renders done r b live h;
          kept_by_delete = λ done r s b h. deletes done r b h;
        })
        freshness).at
      w q
