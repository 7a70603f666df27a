-- ===== src/Store/Retention.antt =====
-- Memory.PruneOperations and RecoverExpiredOperations: bounded clean-up of operations.
pub mod Newest
pub mod Bounds
pub mod Recovery
use proxmox_ovn.Prelude.{
  ℕ, zero, suc, ◌+◌, ◌-◌, Bool, true, false, not, ◌&&◌, ◌||◌, List, [], ◌∷◌, ◌++◌, Option, none,
  some, ℤ, pos, negsuc, ltb_ℤ, increment, int_eq, ltb, leb, nat_beq, length, take, drop, select,
  sort, ◌==◌, if◌then◌else◌,
}
use proxmox_ovn.Text.{Text, text, text_eq, text_lt, is_empty}
use proxmox_ovn.Result.{Result, ok, err, Error, cancelled, conflict, ◌>>=◌, ◌>>◌, refuse}
use proxmox_ovn.Model.Kind.{Kind}
use proxmox_ovn.Model.Resource.{Resource, Operation, OperationStatus}
use proxmox_ovn.Model.Validation.Policy.{lease_protected_action, is_running}
use proxmox_ovn.Store.Table.{Table, Row, rows, put, remove, operation?}
use proxmox_ovn.Store.Idempotency.{
  Store, Records, IdempotencyRecord, find_record, delete_record, idempotency_scope,
}
use proxmox_ovn.Store.Lease.{lease_is_live, lookup_target, failed_row}

abbrev pub is_queued : OperationStatus → Bool
is_queued OperationStatus.queued = true
is_queued _ = false

abbrev pub is_finished : OperationStatus → Bool
is_finished OperationStatus.succeeded = true
is_finished OperationStatus.failed = true
is_finished _ = false

-- The value of an int that is not negative.
abbrev pub to_ℕ : ℤ → ℕ
to_ℕ (pos n) = n
to_ℕ (negsuc n) = 0

-- operationSupersededLocked
unfoldable pub operation_superseded : Table → Operation → Bool
operation_superseded t o = elim (lookup_target t o) [
  | none ↦ true
  | some target ↦ ltb_ℤ o.target_revision target.meta.revision
]

-- The completion time, where there is one.
abbrev pub completion : Row Operation → ℕ
completion o = elim o.value.completed_at [ none ↦ 0 | some time ↦ time ]

abbrev pub is_completed : Row Operation → Bool
is_completed o = elim o.value.completed_at [ none ↦ false | some _ ↦ true ]

-- Newest first, by id where the times agree.
abbrev pub completed_before : Row Operation → Row Operation → Bool
completed_before left right =
    if nat_beq (completion left) (completion right)
    then text_lt left.meta.id right.meta.id
    else ltb (completion right) (completion left)

-- A reconcile that has ended.
unfoldable pub is_terminal : Row Operation → Bool
is_terminal o =
    o.value.action == text "reconcile" && is_completed o && is_finished o.value.operation_status

-- terminalReconcileOperations
unfoldable pub terminal_reconcile_operations : Table → List (Row Operation)
terminal_reconcile_operations t = sort completed_before (select is_terminal (rows operation? t))

-- The tests of the loop of PruneOperations before the replay record.
unfoldable pub is_prunable : Table → ℕ → Row Operation → Bool
is_prunable t before o =
    is_completed o && ltb (completion o) before && operation_superseded t o.value

unfoldable pub owns_record : Option IdempotencyRecord → Text → Bool
owns_record none id = false
owns_record (some r) id = r.resource.meta.id == id

abbrev pub create_scope : Row Operation → Text
create_scope o = idempotency_scope (text "create") Kind.operation [] o.value.idempotency_key

abbrev pub prunes : Store → ℕ → Row Operation → Bool
prunes s before o =
    is_prunable s.resources before o
    && owns_record (find_record s.idempotency (create_scope o)) o.meta.id

abbrev pub without_operation : Store → Row Operation → Store
without_operation s o = record {
  resources = remove s.resources Kind.operation o.meta.id;
  idempotency = delete_record s.idempotency (create_scope o);
}

-- The loop of PruneOperations: `room` is what is left of the batch.
unfoldable pub prune_loop : ℕ → ℕ → List (Row Operation) → ℕ → Store → ℕ × Store
prune_loop before room [] pruned s = (pruned, s)
prune_loop before zero (o ∷ operations) pruned s = (pruned, s)
prune_loop before (suc room) (o ∷ operations) pruned s =
    let removed = prune_loop before room operations (pruned + 1) (without_operation s o) in
    let kept = prune_loop before (suc room) operations pruned s in
    if prunes s before o then removed else kept

abbrev pub max_operation_prune_batch : ℕ
max_operation_prune_batch = 256

-- PruneOperations: the number of operations that went, and the store after it
unfoldable pub prune_operations : Bool → ℕ → ℤ → Store → Result (ℕ × Store)
prune_operations done before keep s = do
  refuse done cancelled
  refuse (nat_beq before 0 || ltb_ℤ keep (pos 0)) conflict
  let candidates = terminal_reconcile_operations s.resources
  if leb (length candidates) (to_ℕ keep)
      then ok (0, s)
      else ok (prune_loop before max_operation_prune_batch (drop (to_ℕ keep) candidates) 0 s)

abbrev pub updated_before : Row Operation → Row Operation → Bool
updated_before left right =
    if nat_beq left.meta.updated_at right.meta.updated_at
    then text_lt left.meta.id right.meta.id
    else ltb left.meta.updated_at right.meta.updated_at

unfoldable pub is_expired_running : ℕ → Row Operation → Bool
is_expired_running lease_cutoff o =
    lease_protected_action o.value.action
    && is_running o.value.operation_status
    && not (lease_is_live o lease_cutoff)

-- expiredRunningOperations
unfoldable pub expired_running_operations : Table → ℕ → List (Row Operation)
expired_running_operations t lease_cutoff =
    sort updated_before (select (is_expired_running lease_cutoff) (rows operation? t))

unfoldable pub is_superseded_queued : Table → Row Operation → Bool
is_superseded_queued t o =
    o.value.action == text "reconcile"
    && is_queued o.value.operation_status
    && operation_superseded t o.value

-- supersededQueuedReconcilesLocked
unfoldable pub superseded_queued_reconciles : Table → List (Row Operation)
superseded_queued_reconciles t =
    sort updated_before (select (is_superseded_queued t) (rows operation? t))

-- operationRecoveryError
unfoldable pub operation_recovery_error : Operation → Text
operation_recovery_error o =
    if is_queued o.operation_status
    then text "operation target revision was superseded before claim"
    else text "operation lease expired before completion"

abbrev pub max_expired_operation_recover_batch : ℕ
max_expired_operation_recover_batch = 256

-- The operations that a recovery fails: expired ones first, as many as the limit allows.
unfoldable pub recovery_candidates : Table → ℕ → ℕ → List (Row Operation)
recovery_candidates t lease_cutoff limit =
    let expired = expired_running_operations t lease_cutoff in
    let queued = superseded_queued_reconciles t in
    take limit (
      if ltb (length expired) limit
      then expired ++ take (limit - length expired) queued
      else expired)

unfoldable pub recover_all : ℕ → List (Row Operation) → Table → Table
recover_all completed [] t = t
recover_all completed (o ∷ operations) t =
    recover_all completed operations
      (put t (failed_row o (operation_recovery_error o.value) completed))

-- RecoverExpiredOperations: the number of operations that were failed, and the store
unfoldable pub recover_expired_operations : Bool → ℕ → ℕ → ℤ → Store → Result (ℕ × Store)
recover_expired_operations done lease_cutoff recovered_at limit s = do
  refuse done cancelled
  refuse (nat_beq lease_cutoff 0 || nat_beq recovered_at 0 || ltb_ℤ limit (pos 1)) conflict
  let batch =
      if ltb max_expired_operation_recover_batch (to_ℕ limit)
      then max_expired_operation_recover_batch
      else to_ℕ limit
  let candidates = recovery_candidates s.resources lease_cutoff batch
  ok (length candidates, record s { resources = recover_all recovered_at candidates s.resources })
