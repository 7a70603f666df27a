-- ===== src/Reconcile/Invariants.antt =====
-- What a whole run of the controller of internal/reconcile/reconcile.go keeps.
use proxmox_ovn.Prelude.{ℕ, ◌-◌, ◌≡◌, Bool, false, not, ◌&&◌, Option, none, some, ℤ}
use proxmox_ovn.Text.{Text, text}
use proxmox_ovn.Result.{
  Result, Error, ok, err, not_found, already_exists, conflict, precondition, idempotency_conflict,
  cancelled, invalid,
}
use proxmox_ovn.Model.Kind.{Kind}
use proxmox_ovn.Model.Resource.{Resource, resource_kind, Operation}
use proxmox_ovn.Store.Table.{Row, as_row, operation?}
use proxmox_ovn.Store.Idempotency.{Store}
use proxmox_ovn.Reconcile.World.{
  Environment, Run, return, ◌>>=◌, call, delete_call, stop_heartbeat, parent_done,
}
use proxmox_ovn.Reconcile.Calls.{create_method, claim_method}
use proxmox_ovn.Reconcile.Work.{
  not_positive, Failure, store_failed, render_failed, mark_failed, completion_failed, joined,
  lease_active, lease_lost, context_ended, needs_deleting, not_an_operation, is_deleting,
  is_not_found, complete_operation,
}
use proxmox_ovn.Reconcile.Decisions.{
  attempt, with_operation, is_lost, is_realized, is_fresh, is_succeeded,
}
use proxmox_ovn.Reconcile.Controller.{
  Controller, latest_operation, delete_work, delete_refused, delete_claimed, delete, purge_deleted,
  reconcile_work, reconcile_refused, reconcile_claimed, reconcile_live, reconcile_found, reconcile,
}
use proxmox_ovn.Reconcile.Keeps.{
  IsInvariant, Keeps, call-Keeps, delete_call-Keeps, stop_heartbeat-Keeps, bind-Keeps, if-Keeps,
  return-Keeps, clock-Keeps, owner-Keeps, fresh_id-Keeps, parent_done-Keeps, start_heartbeat-Keeps,
}
use proxmox_ovn.Reconcile.Methods.{
  create_method-IsMethod, purge_method-IsMethod, claim_method-IsMethod, fence_method-IsMethod,
}
use proxmox_ovn.Reconcile.Runs.{
  get-Keeps, mark-Keeps, render_until_stable-Keeps, complete_operation-Keeps,
}

module _ {W : Type 0} (env : Environment W) (c : Controller) (I : Store → W → Type 0)
    (inv : IsInvariant env I) where
  abbrev K : {A : Type 0} → Run W A → Type 0
  K m = Keeps env I inv m

  case-Keeps :
      {A B : Type 0} (handle : Error → Run W B) (k : A → Run W B)
      → ((e : Error) → K (handle e))
      → ((a : A) → K (k a))
      → (result : Result A) → K (elim result [ ok a ↦ k a | err e ↦ handle e ])
  case-Keeps handle k he hk (ok a) = hk a
  case-Keeps handle k he hk (err e) = he e

  attempt-Keeps :
      {A B : Type 0} (m : Run W (Result A)) (handle : Error → Run W B) (k : A → Run W B)
      → K m
      → ((e : Error) → K (handle e))
      → ((a : A) → K (k a))
      → K (attempt m handle k)
  attempt-Keeps m handle k hm he hk = bind-Keeps env I inv m _ hm (case-Keeps handle k he hk)

  cast-Keeps :
      (k : Row Operation → Run W (Option Failure)) (o : Option (Row Operation))
      → ((o : Row Operation) → K (k o))
      → K (elim o [ none ↦ return (some not_an_operation) | some o ↦ k o ])
  cast-Keeps k none h = return-Keeps env I inv _
  cast-Keeps k (some o) h = h o

  with_operation-Keeps :
      (r : Resource) (k : Row Operation → Run W (Option Failure))
      → ((o : Row Operation) → K (k o))
      → K (with_operation r k)
  with_operation-Keeps r k h = cast-Keeps k (as_row operation? r) h

  latest_operation-Keeps :
      (created : Resource) (replayed : Bool) (k : Row Operation → Run W (Option Failure))
      → ((o : Row Operation) → K (k o))
      → K (latest_operation env c created replayed k)
  unfolding latest_operation
  latest_operation-Keeps created replayed k h = with_operation-Keeps created _ λ o.
      if-Keeps env I inv replayed _ _
        (λ _.
          attempt-Keeps _ _ _ (get-Keeps env I inv Kind.operation o.meta.id)
            (λ e. return-Keeps env I inv _) (λ latest. with_operation-Keeps latest k h))
        (λ _. h o)

  -- The end of a claimed work: the operation is completed.
  complete-Keeps :
      (o : Row Operation) (work_err : Option Text) (answer : Option Error → Bool → Option Failure)
      → K (
          complete_operation env o work_err >>= λ failed.
          parent_done env >>= λ ended. return (answer failed ended))
  complete-Keeps o work_err answer =
      bind-Keeps env I inv _ _ (complete_operation-Keeps env I inv o work_err) λ failed.
        bind-Keeps env I inv _ _ (parent_done-Keeps env I inv) (λ ended. return-Keeps env I inv _)

  -- The heartbeat is stopped, and the operation completed.
  delete_work-Keeps : (r : Resource) (o : Row Operation) → K (delete_work env c r o)
  unfolding delete_work
  delete_work-Keeps r o = bind-Keeps env I inv _ _ (start_heartbeat-Keeps env I inv o) λ _.
      bind-Keeps env I inv (delete_call env r) _ (delete_call-Keeps env I inv r) λ render_err.
        bind-Keeps env I inv (stop_heartbeat env o) _ (stop_heartbeat-Keeps env I inv o) λ h.
          bind-Keeps env I inv _ _ (parent_done-Keeps env I inv) λ ended.
            if-Keeps env I inv (is_lost h.failure ended) _ _ (λ _. return-Keeps env I inv _)
              λ _. complete-Keeps h.operation render_err _

  delete_refused-Keeps : (e : Error) → K (delete_refused env c e)
  unfolding delete_refused
  delete_refused-Keeps not_found = return-Keeps env I inv _
  delete_refused-Keeps already_exists = return-Keeps env I inv _
  delete_refused-Keeps conflict = return-Keeps env I inv _
  delete_refused-Keeps precondition = return-Keeps env I inv _
  delete_refused-Keeps idempotency_conflict = return-Keeps env I inv _
  delete_refused-Keeps cancelled = return-Keeps env I inv _
  delete_refused-Keeps (invalid field) = return-Keeps env I inv _

  claim-Keeps :
      (o : Row Operation) (action lease_owner : Text) (now cutoff : ℕ)
      → K (call env (claim_method o.meta.id o.meta.revision action lease_owner now cutoff))
  claim-Keeps o action lease_owner now cutoff =
      call-Keeps env I inv _
        (claim_method-IsMethod env I inv o.meta.id o.meta.revision action lease_owner now cutoff)

  delete_claimed-Keeps :
      (r : Resource) (replayed recovered : Bool) (o : Row Operation)
      → K (delete_claimed env c r replayed recovered o)
  unfolding delete_claimed
  delete_claimed-Keeps r replayed recovered o =
      if-Keeps env I inv (replayed && is_succeeded o.value.operation_status && not recovered) _ _
        (λ _. return-Keeps env I inv _)
        λ _. bind-Keeps env I inv _ _ (clock-Keeps env I inv) λ now.
          bind-Keeps env I inv _ _ (owner-Keeps env I inv) λ lease_owner.
            attempt-Keeps _ _ _ (claim-Keeps o (text "delete") lease_owner now (now - c.lease))
              delete_refused-Keeps (λ claimed. with_operation-Keeps claimed _ (delete_work-Keeps r))

  create-Keeps :
      (id : Text) (r : Resource) (key : Text) → K (call env (create_method env.platform id r key))
  create-Keeps id r key = call-Keeps env I inv _ (create_method-IsMethod env I inv id r key)

  -- Delete keeps the invariant.
  pub delete-Keeps : (r : Resource) → K (delete env c r)
  unfolding delete
  delete-Keeps r =
      if-Keeps env I inv (not (is_deleting r)) _ _ (λ _. return-Keeps env I inv _)
        λ _. bind-Keeps env I inv _ _ (clock-Keeps env I inv) λ now.
          attempt-Keeps _ _ _
            (call-Keeps env I inv _
              (fence_method-IsMethod env I inv (resource_kind r) r.meta.id (now - c.lease) now))
            (λ e. return-Keeps env I inv _)
            λ (active, recovered).
              if-Keeps env I inv active _ _ (λ _. return-Keeps env I inv _)
                λ _. bind-Keeps env I inv _ _ (fresh_id-Keeps env I inv) λ id.
                  attempt-Keeps _ _ _ (create-Keeps id _ _) (λ e. return-Keeps env I inv _)
                    λ (created, replayed).
                      latest_operation-Keeps created replayed _
                        (delete_claimed-Keeps r replayed recovered)

  purge_deleted-Keeps :
      (kind : Kind) (id : Text) (revision : ℤ) (failure : Option Failure)
      → K (purge_deleted env c kind id revision failure)
  unfolding purge_deleted
  purge_deleted-Keeps kind id revision (some lease_active) = return-Keeps env I inv _
  purge_deleted-Keeps kind id revision (some lease_lost) = return-Keeps env I inv _
  purge_deleted-Keeps kind id revision (some context_ended) = return-Keeps env I inv _
  purge_deleted-Keeps kind id revision (some needs_deleting) = return-Keeps env I inv _
  purge_deleted-Keeps kind id revision (some not_positive) = return-Keeps env I inv _
  purge_deleted-Keeps kind id revision (some not_an_operation) = return-Keeps env I inv _
  purge_deleted-Keeps kind id revision (some (store_failed e)) = return-Keeps env I inv _
  purge_deleted-Keeps kind id revision (some (render_failed e)) = return-Keeps env I inv _
  purge_deleted-Keeps kind id revision (some (mark_failed e)) = return-Keeps env I inv _
  purge_deleted-Keeps kind id revision (some (completion_failed e)) = return-Keeps env I inv _
  purge_deleted-Keeps kind id revision (some (joined f e)) = return-Keeps env I inv _
  purge_deleted-Keeps kind id revision none =
      attempt-Keeps _ _ _
        (call-Keeps env I inv _ (purge_method-IsMethod env I inv kind id revision))
        (λ e.
          if-Keeps env I inv (is_not_found e) _ _ (λ _. return-Keeps env I inv _)
            (λ _. return-Keeps env I inv _))
        (λ _. return-Keeps env I inv _)

  reconcile_work-Keeps :
      (r : Resource) (o : Row Operation) → is_deleting r ≡ false → K (reconcile_work env c r o)
  unfolding reconcile_work
  reconcile_work-Keeps r o live = bind-Keeps env I inv _ _ (start_heartbeat-Keeps env I inv o) λ _.
      bind-Keeps env I inv _ _ (render_until_stable-Keeps env I inv r live)
        λ (render_err, mark_err). bind-Keeps env I inv _ _ (stop_heartbeat-Keeps env I inv o) λ h.
          bind-Keeps env I inv _ _ (parent_done-Keeps env I inv) λ ended.
            if-Keeps env I inv (is_lost h.failure ended) _ _ (λ _. return-Keeps env I inv _)
              λ _. complete-Keeps h.operation _ _

  reconcile_refused-Keeps : (e : Error) → K (reconcile_refused env c e)
  unfolding reconcile_refused
  reconcile_refused-Keeps not_found = return-Keeps env I inv _
  reconcile_refused-Keeps already_exists = return-Keeps env I inv _
  reconcile_refused-Keeps conflict = return-Keeps env I inv _
  reconcile_refused-Keeps precondition = return-Keeps env I inv _
  reconcile_refused-Keeps idempotency_conflict = return-Keeps env I inv _
  reconcile_refused-Keeps cancelled = return-Keeps env I inv _
  reconcile_refused-Keeps (invalid field) = return-Keeps env I inv _

  reconcile_claimed-Keeps :
      (force : Bool) (fresh_since : ℕ) (r : Resource)
      → is_deleting r ≡ false
      → (o : Row Operation) → K (reconcile_claimed env c force fresh_since r o)
  unfolding reconcile_claimed
  reconcile_claimed-Keeps force fresh_since r live o =
      if-Keeps env I inv (is_fresh fresh_since r.meta o.value) _ _ (λ _. return-Keeps env I inv _)
        λ _.
          if-Keeps env I inv (is_succeeded o.value.operation_status && not force) _ _
            (λ _.
              attempt-Keeps _ _ _
                (mark-Keeps env I inv (resource_kind r) r.meta.id r.meta.revision none)
                (λ e. return-Keeps env I inv _) (λ _. return-Keeps env I inv _))
            λ _. bind-Keeps env I inv _ _ (clock-Keeps env I inv) λ now.
              bind-Keeps env I inv _ _ (owner-Keeps env I inv) λ lease_owner.
                attempt-Keeps _ _ _
                  (claim-Keeps o (text "reconcile") lease_owner now (now - c.lease))
                  reconcile_refused-Keeps
                  (λ claimed. with_operation-Keeps claimed _ (λ op. reconcile_work-Keeps r op live))

  reconcile_live-Keeps :
      (force : Bool) (fresh_since : ℕ) (r : Resource)
      → is_deleting r ≡ false
      → K (reconcile_live env c force fresh_since r)
  unfolding reconcile_live
  reconcile_live-Keeps force fresh_since r live =
      if-Keeps env I inv (not force && is_realized r.meta) _ _ (λ _. return-Keeps env I inv _)
        λ _. bind-Keeps env I inv _ _ (fresh_id-Keeps env I inv) λ id.
          attempt-Keeps _ _ _ (create-Keeps id _ _) (λ e. return-Keeps env I inv _)
            λ (created, replayed).
              latest_operation-Keeps created replayed _
                (reconcile_claimed-Keeps force fresh_since r live)

  reconcile_found-Keeps :
      (force : Bool) (fresh_since : ℕ) (kind : Kind) (id : Text) (r : Resource)
      → K (reconcile_found env c force fresh_since kind id r)
  unfolding reconcile_found
  reconcile_found-Keeps force fresh_since kind id r =
      if-Keeps env I inv (is_deleting r) _ _
        (λ _.
          bind-Keeps env I inv _ _ (delete-Keeps r) (purge_deleted-Keeps kind id r.meta.revision))
        (λ live. reconcile_live-Keeps force fresh_since r live)

  -- A reconciliation keeps the invariant.
  pub reconcile-Keeps :
      (force : Bool) (fresh_since : ℕ) (kind : Kind) (id : Text)
      → K (reconcile env c force fresh_since kind id)
  unfolding reconcile
  reconcile-Keeps force fresh_since kind id =
      attempt-Keeps _ _ _ (get-Keeps env I inv kind id) (λ e. return-Keeps env I inv _)
        (reconcile_found-Keeps force fresh_since kind id)
