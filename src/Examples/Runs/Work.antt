-- ===== src/Examples/Runs/Work.antt =====
-- Claims, clean-ups, reports and whole histories, run on the data.
use proxmox_ovn.Prelude.{◌≡◌, refl, true, false, [], none, pos, sort, insert_sorted}
use proxmox_ovn.Text.{to_lower, trim_suffix, trim_space, text, text_beq}
use proxmox_ovn.Result.{ok}
use proxmox_ovn.Model.Kind.{Kind, string}
use proxmox_ovn.Model.Defaults.{
  normalize_dns_domain, set_defaults, default_body, mark_pending, mark_floating_reconciled,
}
use proxmox_ovn.Netip.{parse_prefix, masked}
use proxmox_ovn.Model.Ip.{effective_ipv4_gateway, ipv4_subnet_bounds}
use proxmox_ovn.Model.Patterns.{is_name}
use proxmox_ovn.Model.Validation.{required, validate_name}
use proxmox_ovn.Model.Validation.Address.{validate_subnet, validate_network}
use proxmox_ovn.Model.Validation.Policy.{
  validate_operation, validate_operation_payload, known_operation_status, lease_protected_action,
}
use proxmox_ovn.Model.Validation.Whole.{validate}
use proxmox_ovn.Store.Table.{lookup, put, remove, has_key, rows}
use proxmox_ovn.Store.References.{validate_references}
use proxmox_ovn.Store.Referrers.{references, validate_new_reference_states}
use proxmox_ovn.Store.Unique.{validate_unique, conflict_field, external_address_claim}
use proxmox_ovn.Store.Idempotency.{
  new_memory, replay, idempotency_scope, find_record, fingerprint, put_record, remember,
  delete_record,
}
use proxmox_ovn.Store.Create.{
  create, after_replay, create_new, starts_started, check_create, prepare_create, operation_key,
  stamp_create, name_port,
}
use proxmox_ovn.Store.Lease.{
  claim_operation, valid_lease_owner, check_claim, lookup_target, lease_is_live, target_claimable,
  claimed_row, renew_operation_lease, check_renew, renewed_row, fence_reconciles, fence_row,
  is_fenced, same_target, failed_row,
}
use proxmox_ovn.Store.Retention.{
  recover_expired_operations, recovery_candidates, expired_running_operations,
  superseded_queued_reconciles, is_expired_running, is_superseded_queued, operation_superseded,
  recover_all, operation_recovery_error, prune_operations, terminal_reconcile_operations,
  is_terminal, prune_loop, is_prunable, owns_record,
}
use proxmox_ovn.Store.Reconciled.{
  mark_reconciled, rendered, applied_rendering, observe_node_heartbeat, seen_since, observe_row,
}
use proxmox_ovn.Store.History.{Reach, here, next, creates, reconciles, claims}
use proxmox_ovn.Examples.Data.{
  request, red, red_row, red_store, lan, lan_row, lan_store, queued, queued_row, only_blue,
  platform, ended_store, pruned_store, node_store, seen_row, seen_store, blue, blue_row, blue_store,
  running_row, queued_store, running_store, renewed_store, renewed_row_11, fenced_store, ready_row,
  ready_store, taken_row, taken_store, recovered_store,
}
use proxmox_ovn.Examples.Runs.Writes.{create-blue}

pub claim_queued :
    claim_operation false (text "o") (pos 1) (text "reconcile") (text "alice") 10 8 queued_store
    ≡ ok (running_row, running_store)
unfolding claim_operation text_beq valid_lease_owner lookup has_key check_claim lookup_target
    target_claimable lease_is_live claimed_row put
claim_queued = refl

-- At time 20 leases up to 12 have expired, and bob takes the operation over.
pub claim_expired :
    claim_operation false (text "o") (pos 2) (text "reconcile") (text "bob") 20 12 running_store
    ≡ ok (taken_row, taken_store)
unfolding claim_operation text_beq valid_lease_owner lookup has_key check_claim lookup_target
    target_claimable lease_is_live claimed_row put
claim_expired = refl

pub renew_running :
    renew_operation_lease false (text "o") (pos 2) (text "alice") 11 running_store
    ≡ ok (renewed_row_11, renewed_store)
unfolding renew_operation_lease text_beq lookup has_key check_renew lookup_target target_claimable
    lease_protected_action renewed_row put
renew_running = refl

pub fence_running :
    fence_reconciles false Kind.network (text "n") 12 20 running_store
    ≡ ok (false, true, fenced_store)
unfolding fence_reconciles text_beq rows is_fenced same_target lease_is_live fence_row failed_row
fence_running = refl

pub recover_running :
    recover_expired_operations false 12 20 (pos 5) running_store ≡ ok (1, recovered_store)
unfolding recover_expired_operations text_beq recovery_candidates expired_running_operations
    superseded_queued_reconciles is_expired_running is_superseded_queued operation_superseded
    recover_all operation_recovery_error rows lease_protected_action lease_is_live failed_row put
    has_key lookup_target lookup sort insert_sorted
recover_running = refl

pub mark_blue :
    mark_reconciled false 9 Kind.network (text "n") (pos 1) none blue_store
    ≡ ok (ready_row, ready_store)
unfolding mark_reconciled text_beq lookup has_key rendered applied_rendering
    mark_floating_reconciled put
mark_blue = refl

-- The history that creates the network and marks it.
pub blue_reached : Reach platform new_memory ready_store
blue_reached =
    next (next here (creates 5 [] blue (text "k") false create-blue))
      (reconciles 9 Kind.network (text "n") (pos 1) none false mark_blue)

pub prune_ended : prune_operations false 30 (pos 0) ended_store ≡ ok (1, pruned_store)
unfolding prune_operations terminal_reconcile_operations rows is_terminal sort insert_sorted
    text_beq prune_loop is_prunable operation_superseded lookup_target lookup has_key owns_record
    find_record idempotency_scope string remove delete_record
prune_ended = refl

pub observe_node :
    observe_node_heartbeat false (text "h") (pos 1) 9 node_store ≡ ok (seen_row, seen_store)
unfolding observe_node_heartbeat lookup has_key text_beq seen_since observe_row put
observe_node = refl

pub blue_alone :
    create platform false 5 [] blue [] new_memory
    ≡ ok (record { resource = blue_row; replayed = false; store = only_blue })
unfolding create replay idempotency_scope find_record fingerprint after_replay create_new
    starts_started check_create prepare_create operation_key set_defaults default_body mark_pending
    lookup validate validate_network validate_name is_name validate_references
    validate_new_reference_states validate_unique stamp_create name_port put put_record remember
    string
blue_alone = refl

pub red_beside :
    create platform false 6 [] red [] only_blue
    ≡ ok (record { resource = red_row; replayed = false; store = red_store })
unfolding create replay idempotency_scope find_record fingerprint after_replay create_new
    starts_started check_create prepare_create operation_key set_defaults default_body mark_pending
    lookup validate validate_network validate_name is_name validate_references
    validate_new_reference_states validate_unique stamp_create name_port put put_record remember
    string has_key text_beq conflict_field references external_address_claim
red_beside = refl

pub lan_beside :
    create platform false 6 [] (record { meta = request (text "s"); body = lan }) [] only_blue
    ≡ ok (record { resource = lan_row; replayed = false; store = lan_store })
unfolding create replay idempotency_scope find_record fingerprint after_replay create_new
    starts_started check_create prepare_create operation_key set_defaults default_body mark_pending
    lookup validate validate_network validate_name is_name validate_references
    validate_new_reference_states validate_unique stamp_create name_port put put_record remember
    string has_key text_beq conflict_field references external_address_claim validate_subnet
    required trim_space parse_prefix masked normalize_dns_domain effective_ipv4_gateway
    ipv4_subnet_bounds to_lower trim_suffix
lan_beside = refl

pub queued_beside :
    create platform false 6 [] queued [] only_blue
    ≡ ok (record { resource = queued_row; replayed = false; store = queued_store })
unfolding create replay idempotency_scope find_record fingerprint after_replay create_new
    starts_started check_create prepare_create operation_key set_defaults default_body mark_pending
    lookup validate validate_network validate_name is_name validate_references
    validate_new_reference_states validate_unique stamp_create name_port put put_record remember
    string has_key text_beq conflict_field references external_address_claim validate_operation
    required trim_space validate_operation_payload known_operation_status lease_protected_action
queued_beside = refl

-- Two networks; a network with a subnet; and a network with its claimed reconcile.
pub red_reached : Reach platform new_memory red_store
red_reached =
    next (next here (creates 5 [] blue [] false blue_alone)) (creates 6 [] red [] false red_beside)

pub lan_reached : Reach platform new_memory lan_store
lan_reached =
    next (next here (creates 5 [] blue [] false blue_alone))
      (creates 6 [] (record { meta = request (text "s"); body = lan }) [] false lan_beside)

pub running_reached : Reach platform new_memory running_store
running_reached =
    next
      (next (next here (creates 5 [] blue [] false blue_alone))
        (creates 6 [] queued [] false queued_beside))
      (claims (text "o") (pos 1) (text "reconcile") (text "alice") 10 8 false claim_queued)
