-- ===== src/Store/Lease.antt =====
-- Memory.ClaimReconcile, ClaimDelete, RenewOperationLease and FenceReconciles: leases of
-- reconcile and delete operations.
use proxmox_ovn.Prelude.{
  ℕ, Bool, true, false, not, ◌&&◌, ◌||◌, [], ◌∷◌, map, Option, none, some, any, all, ℤ, increment,
  int_eq, leb, ltb, nat_beq, length, ◌==◌, if◌then◌else◌,
}
use proxmox_ovn.Text.{Text, text, text_eq, is_empty}
use proxmox_ovn.Netip.{is_digit}
use proxmox_ovn.Result.{
  Check, Result, ok, cancelled, conflict, not_found, precondition, ◌>>=◌, ◌>>◌, refuse, guard,
  or_fail,
}
use proxmox_ovn.Model.Kind.{Kind, kind_eq}
use proxmox_ovn.Model.Resource.{
  Metadata, Resource, ResourceState, Operation, OperationStatus, operation,
}
use proxmox_ovn.Model.Validation.Policy.{lease_protected_action, is_running}
use proxmox_ovn.Store.Table.{Table, Row, rows, lookup, cast_found, put, operation?}
use proxmox_ovn.Store.Referrers.{is_unavailable}
use proxmox_ovn.Store.Idempotency.{Store}
use proxmox_ovn.Store.Update.{stale}

abbrev is_letter_or_digit : ℕ → Bool
is_letter_or_digit c = (leb b'a' c && leb c b'z') || (leb b'A' c && leb c b'Z') || is_digit c

-- validLeaseOwner
unfoldable pub valid_lease_owner : Text → Bool
valid_lease_owner [] = false
valid_lease_owner (c ∷ s) =
    leb (length (c ∷ s)) 127
    && is_letter_or_digit c
    && all
        (λ d.
          is_letter_or_digit d
          || nat_beq d b'_'
          || nat_beq d b'.'
          || nat_beq d b':'
          || nat_beq d b'-')
        s

-- reconcileLeaseIsLive
unfoldable pub lease_is_live : Row Operation → ℕ → Bool
lease_is_live o lease_cutoff =
    (elim o.value.started_at [ none ↦ false | some _ ↦ true ]) && ltb lease_cutoff o.meta.updated_at

-- operationTargetClaimable
unfoldable pub target_claimable : Operation → Metadata → Bool → Bool
target_claimable o target exact =
    if o.action == text "reconcile"
    then not exact
      || (not (elim target.state [ ResourceState.deleting ↦ true | _ ↦ false ])
          && target.revision == o.target_revision)
    else if o.action == text "delete"
    then target.revision == o.target_revision && is_unavailable target.state
    else false

-- resources[operation.TargetKind][operation.TargetID]
unfoldable pub lookup_target : Table → Operation → Option Resource
lookup_target t o = elim o.target_kind [ none ↦ none | some kind ↦ lookup t kind o.target_id ]

abbrev pub operation_resource : Metadata → Operation → Resource
operation_resource m o = record { meta = m; body = operation o }

-- The row of a claimed operation.
unfoldable pub claimed_row : Row Operation → Text → ℕ → Resource
claimed_row stored lease_owner started_at =
    operation_resource
      (record stored.meta {
        revision = increment stored.meta.revision;
        state = ResourceState.pending;
        last_error = [];
        updated_at = started_at;
      })
      (record stored.value {
        operation_status = OperationStatus.running;
        lease_owner = lease_owner;
        started_at = some started_at;
        completed_at = none;
        error = [];
      })

unfoldable pub check_claim : Table → ℤ → Text → ℕ → Row Operation → Check
check_claim t expected action lease_cutoff stored = do
  refuse (stale expected stored.meta.revision) precondition
  guard (stored.value.action == action) conflict
  refuse (is_running stored.value.operation_status && lease_is_live stored lease_cutoff) conflict
  target ← or_fail (lookup_target t stored.value) precondition
  guard (target_claimable stored.value target.meta true) precondition

-- claimOperation: the claimed operation and the store after it
unfoldable pub claim_operation :
    Bool → Text → ℤ → Text → Text → ℕ → ℕ → Store → Result (Resource × Store)
claim_operation done operation_id expected action lease_owner started_at lease_cutoff s = do
  refuse done cancelled
  guard (valid_lease_owner lease_owner) conflict
  stored ←
      or_fail (cast_found operation? (lookup s.resources Kind.operation operation_id)) not_found
  check_claim s.resources expected action lease_cutoff stored
  let claimed = claimed_row stored lease_owner started_at
  ok (claimed, record s { resources = put s.resources claimed })

unfoldable pub claim_reconcile : Bool → Text → ℤ → Text → ℕ → ℕ → Store → Result (Resource × Store)
claim_reconcile done operation_id expected lease_owner started_at lease_cutoff s =
    claim_operation done operation_id expected (text "reconcile") lease_owner started_at
      lease_cutoff s

unfoldable pub claim_delete : Bool → Text → ℤ → Text → ℕ → ℕ → Store → Result (Resource × Store)
claim_delete done operation_id expected lease_owner started_at lease_cutoff s =
    claim_operation done operation_id expected (text "delete") lease_owner started_at lease_cutoff s

unfoldable pub renewed_row : Row Operation → ℕ → Resource
renewed_row stored renewed_at =
    operation_resource
      (record stored.meta { revision = increment stored.meta.revision; updated_at = renewed_at })
      stored.value

unfoldable pub check_renew : Table → ℤ → Text → Row Operation → Check
check_renew t expected lease_owner stored = do
  refuse (stale expected stored.meta.revision) precondition
  guard
      (lease_protected_action stored.value.action
        && is_running stored.value.operation_status
        && not (is_empty lease_owner)
        && stored.value.lease_owner == lease_owner)
      conflict
  target ← or_fail (lookup_target t stored.value) precondition
  guard (target_claimable stored.value target.meta false) precondition

-- RenewOperationLease
unfoldable pub renew_operation_lease :
    Bool → Text → ℤ → Text → ℕ → Store → Result (Resource × Store)
renew_operation_lease done operation_id expected lease_owner renewed_at s = do
  refuse done cancelled
  stored ←
      or_fail (cast_found operation? (lookup s.resources Kind.operation operation_id)) not_found
  check_renew s.resources expected lease_owner stored
  let renewed = renewed_row stored renewed_at
  ok (renewed, record s { resources = put s.resources renewed })

-- An operation that has failed: it keeps its lease and gets an error and an end.
unfoldable pub failed_row : Row Operation → Text → ℕ → Resource
failed_row o error completed =
    operation_resource
      (record o.meta {
        revision = increment o.meta.revision;
        state = ResourceState.pending;
        last_error = [];
        updated_at = completed;
      })
      (record o.value {
        operation_status = OperationStatus.failed;
        error = error;
        completed_at = some completed;
      })

unfoldable pub same_target : Option Kind → Kind → Bool
same_target none kind = false
same_target (some k) kind = k == kind

-- A running reconcile of the target.
unfoldable pub is_fenced : Kind → Text → Operation → Bool
is_fenced kind id o =
    o.action == text "reconcile"
    && same_target o.target_kind kind
    && o.target_id == id
    && is_running o.operation_status

-- The row after the fence has passed it.
unfoldable pub fence_row : Kind → Text → ℕ → ℕ → Resource → Resource
fence_row kind id lease_cutoff recovered_at r = elim (operation? r.body) [
  | none ↦ r
  | some o ↦
      let row : Row Operation = record { meta = r.meta; value = o } in
      if is_fenced kind id o && not (lease_is_live row lease_cutoff)
      then failed_row row (text "reconcile lease expired while target was deleting") recovered_at
      else r
]

-- FenceReconciles: whether a live claim is left, whether one was recovered, and the store
unfoldable pub fence_reconciles : Bool → Kind → Text → ℕ → ℕ → Store → Result (Bool × Bool × Store)
fence_reconciles done kind id lease_cutoff recovered_at s = do
  refuse done cancelled
  let operations = rows operation? s.resources
  ok (
    any (λ (o : Row Operation). is_fenced kind id o.value && lease_is_live o lease_cutoff)
        operations,
    any (λ (o : Row Operation). is_fenced kind id o.value && not (lease_is_live o lease_cutoff))
        operations,
    record s { resources = map (fence_row kind id lease_cutoff recovered_at) s.resources },
  )
