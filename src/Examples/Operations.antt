-- ===== src/Examples/Operations.antt =====
-- The theorems on operations, clean-ups and reports, at the runs.
use proxmox_ovn.Prelude.{
  ◌≤◌, ◌≡◌, ◌⊎◌, refl, List, [], length, false, none, some, pos, any, ◌==◌, if◌then◌else◌, int_eq,
  ltb_ℤ,
}
use proxmox_ovn.Text.{Text, text, text_beq, text_eq}
use proxmox_ovn.Model.Kind.{Kind, kind_eq}
use proxmox_ovn.Model.Resource.{ResourceState, Operation}
use proxmox_ovn.Store.Table.{Row, rows, operation?, node?, lookup, has_key}
use proxmox_ovn.Store.Lease.{is_fenced, failed_row}
use proxmox_ovn.Store.Everywhere.{Everywhere}
use proxmox_ovn.Store.Leases.Owners.{IsLeased, Reach-IsLeased}
use proxmox_ovn.Store.Leases.Exclusion.{
  claim_operation-claim_operation, renew_operation_lease-claim_operation,
}
use proxmox_ovn.Store.Leases.Fence.{fence_reconciles_clears}
use proxmox_ovn.Store.Retention.{operation_recovery_error}
use proxmox_ovn.Store.Retention.Bounds.{IsOutdated, prune_operations_spares}
use proxmox_ovn.Store.Retention.Recovery.{
  Failed, IsRecoverable, recover_expired_operations_bounded, recover_expired_operations_spares,
}
use proxmox_ovn.Store.Reconciled.Reports.{
  message_of, applied_after, mark_reconciled_meta, latest, observe_node_heartbeat_later,
}
use proxmox_ovn.Store.Versions.{DiffersAt}
use proxmox_ovn.Examples.Data.{
  platform, blue_row, blue_store, queued_store, running_store, fenced_store, recovered_store,
  ended_store, pruned_store, node_row, node_value, node_store, seen_row, seen_store, ready_row,
  ready_store,
}
use proxmox_ovn.Examples.Runs.{
  running_reached, claim_queued, claim_expired, renew_running, fence_running, recover_running,
  mark_blue, prune_ended, observe_node,
}

Reach-IsLeased_example : Everywhere IsLeased running_store.resources
Reach-IsLeased_example = Reach-IsLeased platform running_store running_reached

claim_operation-claim_operation_example : 10 ≤ 12
claim_operation-claim_operation_example =
    claim_operation-claim_operation false false (text "o") (pos 1) (pos 2) (text "reconcile")
      (text "reconcile") (text "alice") (text "bob") 10 20 8 12 queued_store claim_queued
      claim_expired

renew_operation_lease-claim_operation_example : (text "alice" ≡ text "alice") × (pos 2 ≡ pos 2)
renew_operation_lease-claim_operation_example =
    renew_operation_lease-claim_operation false false (text "o") (pos 1) (pos 2) (text "reconcile")
      (text "alice") (text "alice") 10 8 11 queued_store claim_queued renew_running

fence_reconciles_clears_example :
    any
      (λ (o : Row Operation). is_fenced Kind.network (text "n") o.value)
      (rows operation? fenced_store.resources)
    ≡ false
fence_reconciles_clears_example =
    fence_reconciles_clears false Kind.network (text "n") 12 20 running_store fence_running refl

prune_operations_spares_example :
    (lookup pruned_store.resources Kind.operation (text "o")
      ≡ lookup ended_store.resources Kind.operation (text "o"))
    ⊎ ((o : Row Operation) × (Kind.operation ≡ Kind.operation)
        × (text "o" ≡ o.meta.id)
        × IsOutdated ended_store 30 0 o)
prune_operations_spares_example =
    prune_operations_spares false 30 (pos 0) ended_store Kind.operation (text "o") prune_ended

recover_expired_operations_bounded_example :
    (failed : List (Row Operation)) × (length failed ≡ 1)
    × (length failed ≤ 256)
    × (length failed ≤ 5)
    × ((k : Kind) (i : Text)
        → (lookup recovered_store.resources k i ≡ lookup running_store.resources k i)
          ⊎ Failed 20 failed recovered_store.resources k i)
recover_expired_operations_bounded_example =
    recover_expired_operations_bounded false 12 20 (pos 5) running_store recover_running

recover_expired_operations_spares_example :
    (lookup recovered_store.resources Kind.operation (text "o")
      ≡ lookup running_store.resources Kind.operation (text "o"))
    ⊎ ((o : Row Operation) × (Kind.operation ≡ Kind.operation)
        × (text "o" ≡ o.meta.id)
        × IsRecoverable running_store.resources 12 o
        × (lookup recovered_store.resources Kind.operation (text "o")
            ≡ some (failed_row o (operation_recovery_error o.value) 20)))
recover_expired_operations_spares_example =
    recover_expired_operations_spares false 12 20 (pos 5) running_store Kind.operation (text "o")
      recover_running

mark_reconciled_meta_example :
    ((pos 1 ≡ pos 1)
      × (text "n" ≡ text "n")
      × (blue_row.meta.created_at ≡ 5)
      × (ResourceState.ready
          ≡ (if pos 1 == pos 1 then ResourceState.ready else ResourceState.pending))
      × (message_of none ≡ (if pos 1 == pos 1 then message_of none else []))
      × (pos 1 ≡ applied_after none (pos 1) (pos 0)))
    × (ltb_ℤ (pos 1) (pos 0) ≡ false)
    × DiffersAt Kind.network (text "n") (some ready_row) blue_store.resources ready_store.resources
unfolding lookup has_key text_beq
mark_reconciled_meta_example =
    mark_reconciled_meta false 9 Kind.network (text "n") (pos 1) none blue_store blue_row refl
      mark_blue

observe_node_heartbeat_later_example :
    (seen_row.meta ≡ node_row.meta)
    × (node? seen_row.body ≡ some (record node_value { last_seen_at = some (latest none 9) }))
    × DiffersAt Kind.node (text "h") (some seen_row) node_store.resources seen_store.resources
unfolding lookup has_key text_beq
observe_node_heartbeat_later_example =
    observe_node_heartbeat_later false (text "h") (pos 1) 9 node_store
      (record { meta = node_row.meta; value = node_value }) refl observe_node
