-- ===== src/Reconcile/Trust.antt =====
-- A reconciliation whose operation is known and has succeeded (internal/reconcile/reconcile.go).
use proxmox_ovn.Prelude.{suc, ◌≡◌, refl, ap, ◌∙◌, true, false, Option, none, some}
use proxmox_ovn.Text.{text}
use proxmox_ovn.Result.{Result, Error, ok}
use proxmox_ovn.Model.Kind.{Kind}
use proxmox_ovn.Model.Resource.{Resource, resource_kind, Operation}
use proxmox_ovn.Store.Table.{Row, lookup, put, as_row, operation?}
use proxmox_ovn.Store.Create.{create}
use proxmox_ovn.Reconcile.World.{World, Environment, Run, return, ◌>>=◌, call, has_failed}
use proxmox_ovn.Reconcile.Calls.{get_method, create_method, mark_method}
use proxmox_ovn.Reconcile.Work.{Failure, not_an_operation, is_deleting}
use proxmox_ovn.Reconcile.Decisions.{
  attempt, fail, with_operation, queued_operation, operation_key, is_realized, is_fresh,
  is_succeeded,
}
use proxmox_ovn.Reconcile.Controller.{
  Controller, latest_operation, reconcile_claimed, reconcile_live, reconcile_found, reconcile,
}
use proxmox_ovn.Reconcile.Quiet.{
  IsQuiet, after, marked, get_found, mark_found, marked_meta, marked_found, answered_quiet,
}

-- The operation on a resource's revision that a reconciliation would create.
abbrev pub operation_on : Resource → Resource
operation_on r =
    queued_operation (text "reconcile") (resource_kind r) r.meta.id r.meta.revision
      (operation_key (resource_kind r) r.meta.id r.meta.revision)

-- A step that succeeds goes on with its answer.
attempt_ok :
    {W A B : Type 0} (m : Run W (Result A)) (handle : Error → Run W B) (k : A → Run W B)
    (w w' : World W) (a : A)
    → m w ≡ (ok a, w')
    → attempt m handle k w ≡ k a w'
unfolding ◌>>=◌
attempt_ok m handle k w w' a e = rw e refl

abbrev and_then :
    {W : Type 0}
    → (Row Operation → Run W (Option Failure))
    → Option (Row Operation)
    → Run W (Option Failure)
and_then next none = return (some not_an_operation)
and_then next (some found) = next found

cast_found :
    {W : Type 0} (r : Resource) (o : Row Operation) (k : Row Operation → Run W (Option Failure))
    → as_row operation? r ≡ some o
    → with_operation r k ≡ k o
cast_found r o k e = ap (and_then k) e

module _ {W : Type 0} (env : Environment W) (c : Controller) (quiet : IsQuiet env) where
  claimed_quiet :
      (r : Resource) (o : Row Operation) (w : World W)
      → has_failed w.heartbeat ≡ false
      → lookup w.store.resources (resource_kind r) r.meta.id ≡ some r
      → is_succeeded o.value.operation_status ≡ true
      → reconcile_claimed env c false 0 r o w ≡ (
        none,
        record (after w) {
          store = record w.store { resources = put w.store.resources (marked (env.now w.calls) r) };
        },
      )
  unfolding reconcile_claimed is_fresh
  claimed_quiet r o w live there done = rw done (
      attempt_ok _ _ _ w _ _ (
        answered_quiet env quiet (mark_method (resource_kind r) r.meta.id r.meta.revision none) w
          (marked (env.now w.calls) r) _ live
          (mark_found (resource_kind r) r.meta.id (env.now w.calls) w.store r there)))

  latest_quiet :
      (first op : Resource) (o₁ o : Row Operation) (k : Row Operation → Run W (Option Failure))
      (w : World W)
      → has_failed w.heartbeat ≡ false
      → as_row operation? first ≡ some o₁
      → lookup w.store.resources Kind.operation o₁.meta.id ≡ some op
      → as_row operation? op ≡ some o
      → latest_operation env c first true k w ≡ k o (after w)
  unfolding latest_operation
  latest_quiet first op o₁ o k w live e₁ stored e =
      ap (λ m. m w)
        (cast_found first o₁
          (λ known.
            attempt (call env (get_method Kind.operation known.meta.id)) fail
              (λ latest. with_operation latest k))
          e₁)
      ∙ attempt_ok (call env (get_method Kind.operation o₁.meta.id)) fail
          (λ latest. with_operation latest k) w (after w) op
          (answered_quiet env quiet (get_method Kind.operation o₁.meta.id) w op w.store live
            (get_found Kind.operation o₁.meta.id (env.now w.calls) w.store op stored))
      ∙ ap (λ m. m (after w)) (cast_found op o k e)

  live_quiet :
      (r first op : Resource) (o₁ o : Row Operation) (w : World W)
      → has_failed w.heartbeat ≡ false
      → is_realized r.meta ≡ false
      → create env.platform false
          (env.now w.calls)
          (env.new_id w.calls)
          (operation_on r)
          (operation_key (resource_kind r) r.meta.id r.meta.revision)
          w.store
        ≡ ok (record { resource = first; replayed = true; store = w.store })
      → as_row operation? first ≡ some o₁
      → lookup w.store.resources Kind.operation o₁.meta.id ≡ some op
      → as_row operation? op ≡ some o
      → reconcile_live env c false 0 r w ≡ reconcile_claimed env c false 0 r o (after (after w))
  unfolding reconcile_live ◌>>=◌
  live_quiet r first op o₁ o w live pending known e₁ stored e =
      let key = operation_key (resource_kind r) r.meta.id r.meta.revision in
      rw pending (
        attempt_ok (call env (create_method env.platform (env.new_id w.calls) (operation_on r) key))
          fail
          (λ (created, replayed).
            latest_operation env c created replayed (reconcile_claimed env c false 0 r))
          w (after w) (first, true)
          (answered_quiet env quiet
            (create_method env.platform (env.new_id w.calls) (operation_on r) key) w (first, true)
            w.store live (rw known refl))
        ∙ latest_quiet first op o₁ o (reconcile_claimed env c false 0 r) (after w) live e₁ stored e)

  reconcile_quiet :
      (r first op : Resource) (o₁ o : Row Operation) (w : World W)
      → has_failed w.heartbeat ≡ false
      → lookup w.store.resources (resource_kind r) r.meta.id ≡ some r
      → is_deleting r ≡ false
      → is_realized r.meta ≡ false
      → create env.platform false
          (env.now (suc w.calls))
          (env.new_id (suc w.calls))
          (operation_on r)
          (operation_key (resource_kind r) r.meta.id r.meta.revision)
          w.store
        ≡ ok (record { resource = first; replayed = true; store = w.store })
      → as_row operation? first ≡ some o₁
      → lookup w.store.resources Kind.operation o₁.meta.id ≡ some op
      → as_row operation? op ≡ some o
      → is_succeeded o.value.operation_status ≡ true
      → reconcile env c false 0 (resource_kind r) r.meta.id w ≡ (
        none,
        record w {
          store = record w.store {
            resources = put w.store.resources (marked (env.now (suc (suc (suc w.calls)))) r);
          };
          calls = suc (suc (suc (suc w.calls)));
        },
      )
  unfolding reconcile reconcile_found
  reconcile_quiet r first op o₁ o w live there alive pending known e₁ stored e done =
      attempt_ok _ _ _ w (after w) r (
        answered_quiet env quiet (get_method (resource_kind r) r.meta.id) w r w.store live
          (get_found (resource_kind r) r.meta.id (env.now w.calls) w.store r there))
      ∙ rw alive (live_quiet r first op o₁ o (after w) live pending known e₁ stored e)
      ∙ claimed_quiet r o (after (after (after w))) live there done

-- When nothing interferes, an unforced reconciliation of a stored resource that is not realized,
-- and whose operation's key is known from an earlier operation that has succeeded, renders
-- nothing: it answers no error, leaves the state behind the renderer as it is, and the row under
-- the key is ready with its own revision applied.
pub reconcile_trusts_operation :
    {W : Type 0} (env : Environment W) (c : Controller) (r first op : Resource)
    (o₁ o : Row Operation) (w : World W)
    → IsQuiet env
    → has_failed w.heartbeat ≡ false
    → lookup w.store.resources (resource_kind r) r.meta.id ≡ some r
    → is_deleting r ≡ false
    → is_realized r.meta ≡ false
    → create env.platform false
        (env.now (suc w.calls))
        (env.new_id (suc w.calls))
        (operation_on r)
        (operation_key (resource_kind r) r.meta.id r.meta.revision)
        w.store
      ≡ ok (record { resource = first; replayed = true; store = w.store })
    → as_row operation? first ≡ some o₁
    → lookup w.store.resources Kind.operation o₁.meta.id ≡ some op
    → as_row operation? op ≡ some o
    → is_succeeded o.value.operation_status ≡ true
    → ((reconcile env c false 0 (resource_kind r) r.meta.id w).0 ≡ none)
      × ((reconcile env c false 0 (resource_kind r) r.meta.id w).1.backend ≡ w.backend)
      × ((row : Resource) × (lookup
              (reconcile env c false 0 (resource_kind r) r.meta.id w).1.store.resources
              (resource_kind r)
              r.meta.id
            ≡ some row)
          × (is_realized row.meta ≡ true))
reconcile_trusts_operation env c r first op o₁ o w quiet live there alive pending known e₁ stored e
      done =
    let now = env.now (suc (suc (suc w.calls))) in
    let (revision, id, kind, lives, realized) = marked_meta now r in
    let run =
      reconcile_quiet env c quiet r first op o₁ o w live there alive pending known e₁ stored e
        done in
    (
      ap (λ p. p.0) run,
      ap (λ p. p.1.backend) run,
      (
        marked now r,
        ap (λ p. lookup p.1.store.resources (resource_kind r) r.meta.id) run
            ∙ marked_found now w.store r,
        realized,
      ),
    )
