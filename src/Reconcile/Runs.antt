-- ===== src/Reconcile/Runs.antt =====
-- Every run of the controller of internal/reconcile/reconcile.go keeps an invariant.
use proxmox_ovn.Prelude.{
  ℕ, zero, suc, ◌≡◌, refl, Bool, true, false, [], Option, none, some, ℤ, if◌then◌else◌,
}
use proxmox_ovn.Text.{Text}
use proxmox_ovn.Result.{Result, Error, ok, err}
use proxmox_ovn.Model.Kind.{Kind}
use proxmox_ovn.Model.Resource.{Resource, resource_kind, Operation}
use proxmox_ovn.Store.Table.{Row}
use proxmox_ovn.Store.Idempotency.{Store}
use proxmox_ovn.Reconcile.World.{World, Environment, Run, return, ◌>>=◌, call}
use proxmox_ovn.Reconcile.Calls.{get_method, mark_method}
use proxmox_ovn.Reconcile.Work.{
  Pass, finished, again, is_deleting, is_removed, is_not_found, failure_of, either_failed,
  same_revision, delete_removed, confirm, mark_desired, render_pass, render_passes,
  render_until_stable, complete_operation, unstable_message, after_pass, max_convergence_passes,
}
use proxmox_ovn.Reconcile.Keeps.{
  IsInvariant, Keeps, call-Keeps, detached_call-Keeps, render_call-Keeps, delete_call-Keeps,
  bind-Keeps, return-Keeps, clock-Keeps,
}
use proxmox_ovn.Reconcile.Methods.{
  get_method-IsMethod, update_method-IsMethod, mark_method-IsMethod,
}

module _ {W : Type 0} (env : Environment W) (I : Store → W → Type 0) (inv : IsInvariant env I) where
  pub get-Keeps : (kind : Kind) (id : Text) → Keeps env I inv (call env (get_method kind id))
  get-Keeps kind id = call-Keeps env I inv _ (get_method-IsMethod env I inv kind id)

  pub mark-Keeps :
      (kind : Kind) (id : Text) (revision : ℤ) (error : Option Text)
      → Keeps env I inv (call env (mark_method kind id revision error))
  mark-Keeps kind id revision error =
      call-Keeps env I inv _ (mark_method-IsMethod env I inv kind id revision error)

  -- A pass goes on with nothing but a resource that is no tombstone.
  IsLivePass : Pass → Type 0
  IsLivePass (finished render_err mark_err) = Unit {0}
  IsLivePass (again r) = is_deleting r ≡ false

  -- The run keeps the invariant and answers with such a pass.
  abbrev KeepsLive : Run W Pass → Type 0
  KeepsLive m = Keeps env I inv m × ((w : World W) → IsLivePass (m w).0)

  bind-KeepsLive :
      {A : Type 0} (m : Run W A) (k : A → Run W Pass)
      → Keeps env I inv m
      → ((a : A) → KeepsLive (k a))
      → KeepsLive (m >>= k)
  unfolding ◌>>=◌
  bind-KeepsLive m k hm hk =
      (bind-Keeps env I inv m k hm (λ a. (hk a).0), λ w. (hk (m w).0).1 (m w).1)

  if-KeepsLive :
      (b : Bool) (x y : Run W Pass)
      → (b ≡ true → KeepsLive x)
      → (b ≡ false → KeepsLive y)
      → KeepsLive (if b then x else y)
  if-KeepsLive true x y hx hy = hx refl
  if-KeepsLive false x y hx hy = hy refl

  ended-KeepsLive :
      (render_err : Option Text) (mark_err : Option Error)
      → KeepsLive (return (finished render_err mark_err))
  unfolding IsLivePass
  ended-KeepsLive render_err mark_err = (return-Keeps env I inv _, λ w. tt)

  again-KeepsLive : (r : Resource) → is_deleting r ≡ false → KeepsLive (return (again r))
  unfolding IsLivePass
  again-KeepsLive r live = (return-Keeps env I inv _, λ w. live)

  delete_removed-KeepsLive : (r : Resource) → KeepsLive (delete_removed env r)
  unfolding delete_removed
  delete_removed-KeepsLive r =
      bind-KeepsLive _ _ (delete_call-Keeps env I inv r) (λ failure. ended-KeepsLive failure none)

  confirm-KeepsLive : (r : Resource) (found : Result Resource) → KeepsLive (confirm env r found)
  unfolding confirm is_removed
  confirm-KeepsLive r (err e) =
      if-KeepsLive (is_not_found e) _ _ (λ _. delete_removed-KeepsLive r)
        (λ _. ended-KeepsLive none (some e))
  confirm-KeepsLive r (ok latest) =
      if-KeepsLive (is_deleting latest) _ _ (λ _. delete_removed-KeepsLive r)
        λ live.
          if-KeepsLive (same_revision env latest r) _ _ (λ _. ended-KeepsLive none none)
            (λ _. again-KeepsLive latest live)

  mark_desired-KeepsLive :
      (r : Resource) (render_err : Option Text) → KeepsLive (mark_desired env r render_err)
  unfolding mark_desired
  mark_desired-KeepsLive r render_err =
      bind-KeepsLive _ _ (mark-Keeps (resource_kind r) r.meta.id r.meta.revision render_err)
        λ marked.
          if-KeepsLive (either_failed render_err (failure_of marked)) _ _
            (λ _. ended-KeepsLive render_err (failure_of marked))
            (λ _. bind-KeepsLive _ _ (get-Keeps (resource_kind r) r.meta.id) (confirm-KeepsLive r))

  after_render-KeepsLive :
      (r : Resource) (render_err : Option Text) (latest : Result Resource)
      → KeepsLive (
          if is_removed latest then delete_removed env r else elim latest [
            | err e ↦ return (finished render_err (some e))
            | ok found ↦
                if same_revision env found r
                then mark_desired env r render_err
                else return (again found)
          ])
  unfolding is_removed
  after_render-KeepsLive r render_err (err e) =
      if-KeepsLive (is_not_found e) _ _ (λ _. delete_removed-KeepsLive r)
        (λ _. ended-KeepsLive render_err (some e))
  after_render-KeepsLive r render_err (ok found) =
      if-KeepsLive (is_deleting found) _ _ (λ _. delete_removed-KeepsLive r)
        λ live.
          if-KeepsLive (same_revision env found r) _ _ (λ _. mark_desired-KeepsLive r render_err)
            (λ _. again-KeepsLive found live)

  render_pass-KeepsLive : (r : Resource) → is_deleting r ≡ false → KeepsLive (render_pass env r)
  unfolding render_pass
  render_pass-KeepsLive r live =
      bind-KeepsLive _ _ (render_call-Keeps env I inv r live) λ render_err.
        bind-KeepsLive _ _ (get-Keeps (resource_kind r) r.meta.id)
          (after_render-KeepsLive r render_err)

  after_pass-Keeps :
      (k : Resource → Run W (Option Text × Option Error))
      → ((r : Resource) → is_deleting r ≡ false → Keeps env I inv (k r))
      → (p : Pass) → IsLivePass p
      → Keeps env I inv (after_pass k p)
  unfolding IsLivePass
  after_pass-Keeps k ih (finished render_err mark_err) _ = return-Keeps env I inv _
  after_pass-Keeps k ih (again r) live = ih r live

  -- The answer of a live pass may be used in what follows.
  bind_live-Keeps :
      {B : Type 0} (m : Run W Pass) (k : Pass → Run W B)
      → KeepsLive m
      → ((p : Pass) → IsLivePass p → Keeps env I inv (k p))
      → Keeps env I inv (m >>= k)
  unfolding ◌>>=◌
  bind_live-Keeps m k (kept, ends) hk = record {
    at = λ w i. (hk (m w).0 (ends w)).at (m w).1 (kept.at w i);
  }

  render_passes-Keeps :
      (passes : ℕ) (r : Resource)
      → is_deleting r ≡ false
      → Keeps env I inv (render_passes env passes r)
  unfolding render_passes
  render_passes-Keeps zero r live =
      bind-Keeps env I inv _ _
        (mark-Keeps (resource_kind r) r.meta.id r.meta.revision (some (unstable_message r)))
        (λ marked. return-Keeps env I inv _)
  render_passes-Keeps (suc passes) r live =
      bind_live-Keeps _ _ (render_pass-KeepsLive r live)
        (after_pass-Keeps (render_passes env passes) (render_passes-Keeps passes))

  pub render_until_stable-Keeps :
      (r : Resource) → is_deleting r ≡ false → Keeps env I inv (render_until_stable env r)
  unfolding render_until_stable
  render_until_stable-Keeps r live = render_passes-Keeps max_convergence_passes r live

  pub complete_operation-Keeps :
      (o : Row Operation) (work_err : Option Text)
      → Keeps env I inv (complete_operation env o work_err)
  unfolding complete_operation
  complete_operation-Keeps o work_err =
      bind-Keeps env I inv _ _ (clock-Keeps env I inv) λ completed.
        bind-Keeps env I inv _ _
          (detached_call-Keeps env I inv _ (update_method-IsMethod env I inv _ o.meta.revision []))
          (λ updated. return-Keeps env I inv _)
