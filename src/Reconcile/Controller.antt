-- ===== src/Reconcile/Controller.antt =====
-- The controller: reconcile and Delete of internal/reconcile/reconcile.go. `none` is a nil error. The
-- waiting of ReconcileForced for the claim of another manager is left out.
use proxmox_ovn.Prelude.{ℕ, ◌-◌, Bool, not, ◌&&◌, ◌||◌, Option, none, some, ℤ, if◌then◌else◌}
use proxmox_ovn.Text.{Text, text}
use proxmox_ovn.Result.{Error, not_found, precondition, conflict}
use proxmox_ovn.Model.Kind.{Kind}
use proxmox_ovn.Model.Resource.{Resource, resource_kind, Operation}
use proxmox_ovn.Store.Table.{Row}
use proxmox_ovn.Reconcile.World.{
  ◌>>=◌, ◌>>◌, Environment, Run, return, call, delete_call, clock, owner, fresh_id, parent_done,
  start_heartbeat, stop_heartbeat,
}
use proxmox_ovn.Reconcile.Calls.{
  get_method, mark_method, create_method, purge_method, claim_method, fence_method,
}
use proxmox_ovn.Reconcile.Work.{
  Failure, mark_failed, lease_active, lease_lost, needs_deleting, is_deleting, is_not_found,
  render_until_stable, work_error, complete_operation,
}
use proxmox_ovn.Reconcile.Decisions.{
  attempt, delete_operation_key, fail, is_fresh, is_lost, is_realized, is_succeeded,
  join_completion, operation_key, queued_operation, result_error, with_operation,
}

-- Controller, with its lease and its retention; durations are natural numbers.
pub record Controller : Type 0 where
  pub lease : ℕ
  pub keep : ℤ
  pub age : ℕ

module _ {W : Type 0} (env : Environment W) (c : Controller) where
  -- The created operation, or the stored one where the key was known.
  unfoldable pub latest_operation :
      Resource → Bool → (Row Operation → Run W (Option Failure)) → Run W (Option Failure)
  latest_operation created replayed k = with_operation created λ o.
      if replayed
      then attempt (call env (get_method Kind.operation o.meta.id)) fail
          (λ latest. with_operation latest k)
      else k o

  -- What a claimed deletion does.
  unfoldable pub delete_work : Resource → Row Operation → Run W (Option Failure)
  unfolding is_lost complete_operation
  delete_work r o = do
    start_heartbeat o
    render_err ← delete_call env r
    heartbeat ← stop_heartbeat env o
    ended ← parent_done env
    if is_lost heartbeat.failure ended then return (some lease_lost) else (do
      failed ← complete_operation env heartbeat.operation render_err
      ended_by_now ← parent_done env
      return (join_completion (result_error render_err none (ended || ended_by_now)) failed))

  -- An operation that another manager has claimed, or that no longer fits its target.
  unfoldable pub delete_refused : Error → Run W (Option Failure)
  delete_refused precondition = return (some lease_active)
  delete_refused conflict = return (some lease_active)
  delete_refused e = fail e

  -- From the claim on.
  unfoldable pub delete_claimed : Resource → Bool → Bool → Row Operation → Run W (Option Failure)
  unfolding delete_work delete_refused
  delete_claimed r replayed recovered o =
      if replayed && is_succeeded o.value.operation_status && not recovered
      then return none
      else (do
        now ← clock env
        lease_owner ← owner env
        attempt
            (call env (
              claim_method o.meta.id o.meta.revision (text "delete") lease_owner now
                (now - c.lease)))
            delete_refused (λ claimed. with_operation claimed (delete_work r)))

  -- Delete
  unfoldable pub delete : Resource → Run W (Option Failure)
  unfolding is_deleting queued_operation latest_operation delete_claimed
  delete r = if not (is_deleting r) then return (some needs_deleting) else (do
    let kind = resource_kind r
    let key = delete_operation_key kind r.meta.id r.meta.revision
    now ← clock env
    attempt (call env (fence_method kind r.meta.id (now - c.lease) now)) fail λ (active, recovered).
        if active then return (some lease_active) else (do
          id ← fresh_id env
          attempt
              (call env (
                create_method env.platform id
                  (queued_operation (text "delete") kind r.meta.id r.meta.revision key) key))
              fail
              (λ (created, replayed).
                latest_operation created replayed (delete_claimed r replayed recovered))))

  -- After the removal of the rendered form: an active lease is left to a later run.
  unfoldable pub purge_deleted : Kind → Text → ℤ → Option Failure → Run W (Option Failure)
  purge_deleted kind id revision (some lease_active) = return none
  purge_deleted kind id revision (some failure) = return (some failure)
  purge_deleted kind id revision none =
      attempt (call env (purge_method kind id revision))
        (λ e. if is_not_found e then return none else fail e) (λ _. return none)

  -- The work under a claim.
  unfoldable pub reconcile_work : Resource → Row Operation → Run W (Option Failure)
  unfolding is_lost complete_operation render_until_stable
  reconcile_work r o = do
    start_heartbeat o
    (render_err, mark_err) ← render_until_stable env r
    heartbeat ← stop_heartbeat env o
    ended ← parent_done env
    if is_lost heartbeat.failure ended then return (some lease_lost) else (do
      failed ← complete_operation env heartbeat.operation (work_error env render_err mark_err)
      ended_by_now ← parent_done env
      return (join_completion (result_error render_err mark_err (ended || ended_by_now)) failed))

  -- Another manager has won the claim, or the revision is no longer active.
  unfoldable pub reconcile_refused : Error → Run W (Option Failure)
  reconcile_refused precondition = return none
  reconcile_refused conflict = return none
  reconcile_refused not_found = return none
  reconcile_refused e = fail e

  unfoldable pub reconcile_claimed : Bool → ℕ → Resource → Row Operation → Run W (Option Failure)
  unfolding is_fresh reconcile_refused reconcile_work
  reconcile_claimed force fresh_since r o =
      if is_fresh fresh_since r.meta o.value
      then return none
      else if is_succeeded o.value.operation_status && not force
      then attempt (call env (mark_method (resource_kind r) r.meta.id r.meta.revision none))
          (λ e. return (some (mark_failed e))) (λ _. return none)
      else (do
        now ← clock env
        lease_owner ← owner env
        attempt
            (call env (
              claim_method o.meta.id o.meta.revision (text "reconcile") lease_owner now
                (now - c.lease)))
            reconcile_refused (λ claimed. with_operation claimed (reconcile_work r)))

  -- A resource that is there and is no tombstone.
  unfoldable pub reconcile_live : Bool → ℕ → Resource → Run W (Option Failure)
  unfolding is_realized queued_operation latest_operation reconcile_claimed
  reconcile_live force fresh_since r = if not force && is_realized r.meta then return none else (do
    let kind = resource_kind r
    let key = operation_key kind r.meta.id r.meta.revision
    id ← fresh_id env
    attempt
        (call env (
          create_method env.platform id
            (queued_operation (text "reconcile") kind r.meta.id r.meta.revision key) key))
        fail
        (λ (created, replayed).
          latest_operation created replayed (reconcile_claimed force fresh_since r)))

  unfoldable pub reconcile_found : Bool → ℕ → Kind → Text → Resource → Run W (Option Failure)
  unfolding is_deleting delete purge_deleted reconcile_live
  reconcile_found force fresh_since kind id r =
      if is_deleting r
      then (do failure ← delete r; purge_deleted kind id r.meta.revision failure)
      else reconcile_live force fresh_since r

  -- reconcile: reconcileAttempt without waiting for a claim
  unfoldable pub reconcile : Bool → ℕ → Kind → Text → Run W (Option Failure)
  unfolding reconcile_found
  reconcile force fresh_since kind id =
      attempt (call env (get_method kind id)) fail (reconcile_found force fresh_since kind id)
