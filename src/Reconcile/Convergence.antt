-- ===== src/Reconcile/Convergence.antt =====
-- renderUntilStable of internal/reconcile/reconcile.go when nothing interferes.
use proxmox_ovn.Prelude.{int_eq, suc, ◌≡◌, refl, ap, ◌∙◌, true, false, none, some, ==_refl}
use proxmox_ovn.Model.Resource.{Resource, resource_kind}
use proxmox_ovn.Store.Table.{lookup, put}
use proxmox_ovn.Store.Idempotency.{Store}
use proxmox_ovn.Reconcile.World.{World, Environment, ◌>>=◌, has_failed}
use proxmox_ovn.Reconcile.Calls.{get_method, mark_method}
use proxmox_ovn.Reconcile.Work.{
  finished, is_deleting, is_removed, confirm, mark_desired, render_pass, render_passes,
  render_until_stable,
}
use proxmox_ovn.Reconcile.Decisions.{is_realized}
use proxmox_ovn.Reconcile.Quiet.{
  IsQuiet, after, get_found, marked, mark_found, marked_meta, marked_found, render_quiet,
  answered_quiet,
}

module _ {W : Type 0} (env : Environment W) (quiet : IsQuiet env) where
  -- What the world is after a pass.
  abbrev after_pass_of : Resource → World W → World W
  after_pass_of r w = record w {
    store = record w.store {
      resources = put w.store.resources (marked (env.now (suc (suc w.calls))) r);
    };
    backend = (env.render false r w.backend).1;
    calls = suc (suc (suc (suc w.calls)));
  }

  mark_desired_quiet :
      (r : Resource) (w : World W)
      → has_failed w.heartbeat ≡ false
      → lookup w.store.resources (resource_kind r) r.meta.id ≡ some r
      → mark_desired env r none w ≡ (
        finished none none,
        record w {
          store = record w.store { resources = put w.store.resources (marked (env.now w.calls) r) };
          calls = suc (suc w.calls);
        },
      )
  unfolding mark_desired confirm is_removed ◌>>=◌
  mark_desired_quiet r w live there =
      let now = env.now w.calls in
      let (revision, id, kind, lives, realized) = marked_meta now r in
      let marks : Store = record w.store { resources = put w.store.resources (marked now r) } in
      let w' : World W = record (after w) { store = marks } in
      rw
        (
          answered_quiet env quiet (mark_method (resource_kind r) r.meta.id r.meta.revision none) w
              (marked now r) marks live
              (mark_found (resource_kind r) r.meta.id now w.store r there),
          answered_quiet env quiet (get_method (resource_kind r) r.meta.id) w' (marked now r) marks
              live
              (get_found (resource_kind r) r.meta.id (env.now w'.calls) marks (marked now r)
                (marked_found now w.store r)),
          lives,
          revision,
          ==_refl r.meta.revision,
        )
        refl

  render_pass_quiet :
      (r : Resource) (w : World W)
      → has_failed w.heartbeat ≡ false
      → is_deleting r ≡ false
      → lookup w.store.resources (resource_kind r) r.meta.id ≡ some r
      → render_pass env r w ≡ (finished none none, after_pass_of r w)
  unfolding render_pass is_removed ◌>>=◌
  render_pass_quiet r w live alive there =
      let w1 : World W = record (after w) { backend = (env.render false r w.backend).1 } in
      rw
        (
          render_quiet env quiet r w live,
          answered_quiet env quiet (get_method (resource_kind r) r.meta.id) w1 r w.store live
              (get_found (resource_kind r) r.meta.id (env.now w1.calls) w.store r there),
          alive,
          ==_refl r.meta.revision,
          render_quiet env quiet r w live,
        )
        (mark_desired_quiet r (after w1) live there)

  quiet_lem :
      (r : Resource) (w : World W)
      → has_failed w.heartbeat ≡ false
      → is_deleting r ≡ false
      → lookup w.store.resources (resource_kind r) r.meta.id ≡ some r
      → render_until_stable env r w ≡ ((none, none), after_pass_of r w)
  unfolding render_until_stable render_passes ◌>>=◌
  quiet_lem r w live alive there = rw (render_pass_quiet r w live alive there) refl

-- When nothing interferes and rendering succeeds, renderUntilStable ends without an error for a
-- stored resource that is no tombstone: it has rendered that resource, and the row under its key
-- is ready with its own revision applied.
pub render_until_stable_converges :
    {W : Type 0} (env : Environment W) (r : Resource) (w : World W)
    → IsQuiet env
    → has_failed w.heartbeat ≡ false
    → is_deleting r ≡ false
    → lookup w.store.resources (resource_kind r) r.meta.id ≡ some r
    → ((render_until_stable env r w).0 ≡ (none, none))
      × ((render_until_stable env r w).1.backend ≡ (env.render false r w.backend).1)
      × ((row : Resource) × (lookup
              (render_until_stable env r w).1.store.resources
              (resource_kind r)
              r.meta.id
            ≡ some row)
          × (row.meta.revision ≡ r.meta.revision)
          × (is_realized row.meta ≡ true))
render_until_stable_converges env r w quiet live alive there =
    let now = env.now (suc (suc w.calls)) in
    let (revision, id, kind, lives, realized) = marked_meta now r in
    let e = quiet_lem env quiet r w live alive there in
    (
      ap (λ p. p.0) e,
      ap (λ p. p.1.backend) e,
      (
        marked now r,
        ap (λ p. lookup p.1.store.resources (resource_kind r) r.meta.id) e
            ∙ marked_found now w.store r,
        revision,
        realized,
      ),
    )
