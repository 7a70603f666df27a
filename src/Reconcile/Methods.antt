-- ===== src/Reconcile/Methods.antt =====
-- Each method that the controller of internal/reconcile/reconcile.go calls keeps an invariant.
use proxmox_ovn.Prelude.{ℕ, ◌≡◌, subst, ap, List, Option, ℤ}
use proxmox_ovn.Text.{Text}
use proxmox_ovn.Result.{Result, ok, bind-ok, ok_inj}
use proxmox_ovn.Model.Kind.{Kind}
use proxmox_ovn.Model.Resource.{Resource}
use proxmox_ovn.Store.Idempotency.{Store}
use proxmox_ovn.Store.Create.{create}
use proxmox_ovn.Store.Update.{update}
use proxmox_ovn.Store.Delete.{purge}
use proxmox_ovn.Store.Lease.{fence_reconciles}
use proxmox_ovn.Store.Read.{ListOptions, get, snapshot}
use proxmox_ovn.Store.History.{
  creates, updates, purges, claims, fences, prunes, recovers, reconciles,
}
use proxmox_ovn.Reconcile.World.{Environment}
use proxmox_ovn.Reconcile.Calls.{
  get_method, snapshot_method, create_method, update_method, purge_method, claim_method,
  fence_method, mark_method, prune_method, recover_method,
}
use proxmox_ovn.Reconcile.Keeps.{IsInvariant, IsMethod}

abbrev answer : {A : Type 0} → A → Store → Result (A × Store)
answer a s = ok (a, s)

module _ {W : Type 0} (env : Environment W) (I : Store → W → Type 0) (inv : IsInvariant env I) where
  -- The store of an answer that is put together.
  same_store :
      {A : Type 0} {x y : A} {s t : Store} (b : W) → answer x s ≡ answer y t → I s b → I t b
  same_store {A} b e i = subst (λ u. I u b) (ap (λ (p : A × Store). p.1) (ok_inj e)) i

  pub get_method-IsMethod : (kind : Kind) (id : Text) → IsMethod env I inv (get_method kind id)
  get_method-IsMethod kind id now done s r t b h i =
      let (found, _, e) = bind-ok (get done kind id s) _ h in same_store b e i

  pub snapshot_method-IsMethod :
      (kinds : List Kind) (options : ListOptions)
      → IsMethod env I inv (snapshot_method kinds options)
  snapshot_method-IsMethod kinds options now done s r t b h i =
      let (found, _, e) = bind-ok (snapshot done kinds options s) _ h in same_store b e i

  pub create_method-IsMethod :
      (id : Text) (r : Resource) (key : Text)
      → IsMethod env I inv (create_method env.platform id r key)
  create_method-IsMethod id r key now done s a t b h i =
      let (w, made, e) = bind-ok (create env.platform done now id r key s) _ h in
      same_store b e (inv.kept_by_step s w.store b (creates now id r key done made) i)

  pub update_method-IsMethod :
      (r : Resource) (expected : ℤ) (key : Text)
      → IsMethod env I inv (update_method env.platform r expected key)
  update_method-IsMethod r expected key now done s a t b h i =
      let (w, made, e) = bind-ok (update env.platform done now r expected key s) _ h in
      same_store b e (inv.kept_by_step s w.store b (updates now r expected key done made) i)

  pub purge_method-IsMethod :
      (kind : Kind) (id : Text) (revision : ℤ) → IsMethod env I inv (purge_method kind id revision)
  purge_method-IsMethod kind id revision now done s a t b h i =
      let (s', made, e) = bind-ok (purge done kind id revision s) _ h in
      same_store b e (inv.kept_by_step s s' b (purges kind id revision done made) i)

  pub claim_method-IsMethod :
      (id : Text) (expected : ℤ) (action owner : Text) (started cutoff : ℕ)
      → IsMethod env I inv (claim_method id expected action owner started cutoff)
  claim_method-IsMethod id expected action owner started cutoff now done s a t b h i =
      inv.kept_by_step s t b (claims id expected action owner started cutoff done h) i

  pub fence_method-IsMethod :
      (kind : Kind) (id : Text) (cutoff recovered : ℕ)
      → IsMethod env I inv (fence_method kind id cutoff recovered)
  fence_method-IsMethod kind id cutoff recovered now done s a t b h i =
      let (c, made, e) = bind-ok (fence_reconciles done kind id cutoff recovered s) _ h in
      same_store b e (inv.kept_by_step s c.2 b (fences kind id cutoff recovered done made) i)

  pub mark_method-IsMethod :
      (kind : Kind) (id : Text) (revision : ℤ) (error : Option Text)
      → IsMethod env I inv (mark_method kind id revision error)
  mark_method-IsMethod kind id revision error now done s a t b h i =
      inv.kept_by_step s t b (reconciles now kind id revision error done h) i

  pub prune_method-IsMethod :
      (before : ℕ) (keep : ℤ) → IsMethod env I inv (prune_method before keep)
  prune_method-IsMethod before keep now done s a t b h i =
      inv.kept_by_step s t b (prunes before keep done h) i

  pub recover_method-IsMethod :
      (cutoff recovered : ℕ) (limit : ℤ)
      → IsMethod env I inv (recover_method cutoff recovered limit)
  recover_method-IsMethod cutoff recovered limit now done s a t b h i =
      inv.kept_by_step s t b (recovers cutoff recovered limit done h) i
