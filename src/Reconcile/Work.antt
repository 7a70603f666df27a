-- ===== src/Reconcile/Work.antt =====
-- What a claimed operation does: renderUntilStable and completeOperation. A rendering's error is
-- its text, an error of the store is its kind.
use proxmox_ovn.Prelude.{
  ℕ, zero, suc, ◌++◌, Bool, true, false, [], Option, none, some, int_eq, ◌==◌, if◌then◌else◌,
}
use proxmox_ovn.Text.{Text, text}
use proxmox_ovn.Result.{Result, Error, ok, err, not_found}
use proxmox_ovn.Model.Kind.{string}
use proxmox_ovn.Model.Resource.{
  Resource, ResourceState, resource_kind, Operation, OperationStatus, operation,
}
use proxmox_ovn.Store.Table.{Row}
use proxmox_ovn.Reconcile.World.{
  Environment, Run, return, ◌>>=◌, call, detached_call, render_call, delete_call, clock,
}
use proxmox_ovn.Reconcile.Calls.{get_method, mark_method, update_method}

-- What may stop a reconciliation; `joined` is errors.Join.
pub data Failure : Type 0 where
  store_failed : Error → Failure
  render_failed : Text → Failure
  mark_failed : Error → Failure
  completion_failed : Error → Failure
  joined : Failure → Error → Failure
  lease_active lease_lost context_ended needs_deleting not_an_operation not_positive : Failure

unfoldable pub is_deleting : Resource → Bool
is_deleting r = elim r.meta.state [ ResourceState.deleting ↦ true | _ ↦ false ]

unfoldable pub is_not_found : Error → Bool
is_not_found not_found = true
is_not_found _ = false

-- The target is gone, or is a tombstone.
unfoldable pub is_removed : Result Resource → Bool
unfolding is_deleting is_not_found
is_removed (ok r) = is_deleting r
is_removed (err e) = is_not_found e

-- The end of a pass with renderErr and markErr, or another pass on a newer revision.
pub data Pass : Type 0 where
  finished : Option Text → Option Error → Pass
  again : Resource → Pass

abbrev pub failure_of {ℓ} : {A : Type ℓ} → Result A → Option Error
failure_of (ok _) = none
failure_of (err e) = some e

abbrev pub either_failed : Option Text → Option Error → Bool
either_failed none none = false
either_failed (some _) mark = true
either_failed none (some _) = true

-- maxConvergencePasses
abbrev pub max_convergence_passes : ℕ
max_convergence_passes = 8

-- The message of the last line; an id of plain characters is quoted as it is.
unfoldable pub unstable_message : Resource → Text
unstable_message r =
    string (resource_kind r)
    ++ (text " \"" ++ (r.meta.id ++ text "\" changed during 8 consecutive render passes"))

-- The loop goes on with a newer revision.
abbrev pub after_pass :
    {W : Type 0}
    → (Resource → Run W (Option Text × Option Error))
    → Pass
    → Run W (Option Text × Option Error)
after_pass next (finished render_err mark_err) = return (render_err, mark_err)
after_pass next (again r) = next r

module _ {W : Type 0} (env : Environment W) where
  unfoldable pub delete_removed : Resource → Run W Pass
  delete_removed desired = do failure ← delete_call env desired; return (finished failure none)

  abbrev pub same_revision : Resource → Resource → Bool
  same_revision r desired = r.meta.revision == desired.meta.revision

  -- The confirming read.
  unfoldable pub confirm : Resource → Result Resource → Run W Pass
  unfolding delete_removed
  confirm desired confirmed =
      if is_removed confirmed then delete_removed desired else elim confirmed [
        | err e ↦ return (finished none (some e))
        | ok r ↦ if same_revision r desired then return (finished none none) else return (again r)
      ]

  -- The revision is still the desired one: it is marked, and read again.
  unfoldable pub mark_desired : Resource → Option Text → Run W Pass
  unfolding confirm
  mark_desired desired render_err = do
    marked ←
        call env
          (mark_method (resource_kind desired) desired.meta.id desired.meta.revision render_err)
    if either_failed render_err (failure_of marked)
        then return (finished render_err (failure_of marked))
        else (do
          confirmed ← call env (get_method (resource_kind desired) desired.meta.id)
          confirm desired confirmed)

  -- One pass of the loop.
  unfoldable pub render_pass : Resource → Run W Pass
  render_pass desired = do
    render_err ← render_call env desired
    latest ← call env (get_method (resource_kind desired) desired.meta.id)
    if is_removed latest then delete_removed desired else elim latest [
      | err e ↦ return (finished render_err (some e))
      | ok r ↦ if same_revision r desired then mark_desired desired render_err else return (again r)
    ]

  -- The loop of renderUntilStable with the passes that are left, and its answer.
  unfoldable pub render_passes : ℕ → Resource → Run W (Option Text × Option Error)
  render_passes zero desired = do
    let message = unstable_message desired
    marked ←
        call env
          (mark_method (resource_kind desired) desired.meta.id desired.meta.revision (some message))
    return (some message, failure_of marked)
  render_passes (suc passes) desired = do
    pass ← render_pass desired
    after_pass (render_passes passes) pass

  -- renderUntilStable
  unfoldable pub render_until_stable : Resource → Run W (Option Text × Option Error)
  unfolding render_passes
  render_until_stable initial = render_passes max_convergence_passes initial

  -- workErr
  abbrev pub work_error : Option Text → Option Error → Option Text
  work_error (some message) mark_err = some message
  work_error none none = none
  work_error none (some e) = some (env.error_text e)

  unfoldable pub completed_operation : Row Operation → ℕ → Option Text → Resource
  completed_operation o completed none = record {
    meta = o.meta;
    body = operation (record o.value {
      completed_at = some completed;
      operation_status = OperationStatus.succeeded;
      error = [];
    });
  }
  completed_operation o completed (some message) = record {
    meta = o.meta;
    body = operation (record o.value {
      completed_at = some completed;
      operation_status = OperationStatus.failed;
      error = message;
    });
  }

  -- completeOperation
  unfoldable pub complete_operation : Row Operation → Option Text → Run W (Option Error)
  unfolding completed_operation
  complete_operation o work_err = do
    completed ← clock env
    updated ←
        detached_call env
          (update_method env.platform (completed_operation o completed work_err) o.meta.revision [])
    return (failure_of updated)
