-- ===== src/Reconcile/Decisions.antt =====
-- What the controller decides with: the keys, the tests and the answers of
-- internal/reconcile/reconcile.go.
use proxmox_ovn.Prelude.{
  ℕ, ◌++◌, Bool, true, false, not, ◌&&◌, [], ◌∷◌, Option, none, some, ℤ, pos, ltb_ℤ, leb, nat_beq,
  if◌then◌else◌,
}
use proxmox_ovn.Text.{Text, text, decimal}
use proxmox_ovn.Result.{Result, Error, ok, err}
use proxmox_ovn.Model.Kind.{Kind, string}
use proxmox_ovn.Model.Resource.{
  Resource, ResourceState, Metadata, Operation, OperationStatus, operation,
}
use proxmox_ovn.Store.Table.{Row, as_row, operation?}
use proxmox_ovn.Reconcile.World.{◌>>=◌, LeaseLoss, renewal_failed, parent_stopped, Run, return}
use proxmox_ovn.Reconcile.Work.{
  Failure, store_failed, render_failed, mark_failed, completion_failed, joined, context_ended,
  not_an_operation,
}

-- operationKey and deleteOperationKey
unfoldable pub operation_key : Kind → Text → ℤ → Text
operation_key kind id revision =
    text "reconcile:" ++ (string kind ++ (b':' ∷ (id ++ (b':' ∷ decimal revision))))

unfoldable pub delete_operation_key : Kind → Text → ℤ → Text
delete_operation_key kind id revision =
    text "delete:" ++ (string kind ++ (b':' ∷ (id ++ (b':' ∷ decimal revision))))

abbrev no_metadata : Metadata
no_metadata = record {
  id = [];
  revision = pos 0;
  applied_revision = pos 0;
  state = ResourceState.unset;
  last_error = [];
  created_at = 0;
  updated_at = 0;
}

-- A queued operation on a revision of a resource.
unfoldable pub queued_operation : Text → Kind → Text → ℤ → Text → Resource
queued_operation action kind id revision key = record {
  meta = no_metadata;
  body = operation (record {
    action = action;
    target_kind = some kind;
    target_id = id;
    target_revision = revision;
    operation_status = OperationStatus.queued;
    idempotency_key = key;
    error = [];
    lease_owner = [];
    started_at = none;
    completed_at = none;
    payload = [];
  });
}

abbrev pub is_ready : ResourceState → Bool
is_ready ResourceState.ready = true
is_ready _ = false

abbrev pub is_succeeded : OperationStatus → Bool
is_succeeded OperationStatus.succeeded = true
is_succeeded _ = false

-- meta.AppliedRevision >= meta.Revision && meta.State == ready
unfoldable pub is_realized : Metadata → Bool
is_realized meta = not (ltb_ℤ meta.applied_revision meta.revision) && is_ready meta.state

-- CompletedAt != nil && !CompletedAt.Before(since)
unfoldable pub completed_since : Option ℕ → ℕ → Bool
completed_since none since = false
completed_since (some completed) since = leb since completed

-- An audit that is fresh enough; `since` is 0 where no freshness is asked for.
unfoldable pub is_fresh : ℕ → Metadata → Operation → Bool
unfolding is_realized completed_since
is_fresh since meta o =
    not (nat_beq since 0)
    && is_realized meta
    && is_succeeded o.operation_status
    && completed_since o.completed_at since

-- Whether a lost lease ends the run: it does not where only the caller's context has ended.
unfoldable pub is_lost : Option LeaseLoss → Bool → Bool
is_lost none ended = false
is_lost (some (renewal_failed _)) ended = true
is_lost (some parent_stopped) ended = not ended

abbrev pub result_error : Option Text → Option Error → Bool → Option Failure
result_error (some message) mark_err ended = some (render_failed message)
result_error none (some e) ended = some (mark_failed e)
result_error none none ended = if ended then some context_ended else none

-- errors.Join with operationErr
abbrev pub join_completion : Option Failure → Option Error → Option Failure
join_completion failure none = failure
join_completion none (some e) = some (completion_failed e)
join_completion (some failure) (some e) = some (joined failure e)

module _ {W : Type 0} where
  -- if err != nil { return handle(err) }
  abbrev pub attempt :
      {A B : Type 0} → Run W (Result A) → (Error → Run W B) → (A → Run W B) → Run W B
  attempt m handle k = do result ← m; elim result [ ok a ↦ k a | err e ↦ handle e ]

  abbrev pub fail : Error → Run W (Option Failure)
  fail e = return (some (store_failed e))

  -- created.(*model.Operation)
  abbrev pub with_operation :
      Resource → (Row Operation → Run W (Option Failure)) → Run W (Option Failure)
  with_operation r k = elim (as_row operation? r) [
    | none ↦ return (some not_an_operation)
    | some o ↦ k o
  ]
