-- ===== src/Examples/Runs/Writes.antt =====
-- Creates, updates, deletes and snapshots of the network, run on the data.
use proxmox_ovn.Prelude.{◌≡◌, refl, false, [], ◌∷◌, pos, sort, insert_sorted}
use proxmox_ovn.Text.{text, text_beq, decimal}
use proxmox_ovn.Result.{ok}
use proxmox_ovn.Model.Kind.{Kind, string}
use proxmox_ovn.Model.Defaults.{set_defaults, default_body, mark_pending}
use proxmox_ovn.Model.Patterns.{is_name}
use proxmox_ovn.Model.Validation.{validate_name}
use proxmox_ovn.Model.Validation.Address.{validate_network}
use proxmox_ovn.Model.Validation.Whole.{validate}
use proxmox_ovn.Store.Table.{lookup, put, remove, has_key, rows}
use proxmox_ovn.Store.References.{validate_references, validate_all_references}
use proxmox_ovn.Store.Referrers.{
  references, validate_new_reference_states, has_referrer, is_referenced,
}
use proxmox_ovn.Store.Unique.{
  validate_unique, validate_all_unique, conflict_field, external_address_claim,
}
use proxmox_ovn.Store.Idempotency.{
  new_memory, replay, idempotency_scope, find_record, fingerprint, delete_fingerprint, put_record,
  remember,
}
use proxmox_ovn.Store.Create.{
  Written, create, after_replay, create_new, starts_started, check_create, prepare_create,
  operation_key, stamp_create, name_port,
}
use proxmox_ovn.Store.Update.{
  update, update_current, prepare_update, check_update, validate_graph, restored, stamp_update,
}
use proxmox_ovn.Store.Delete.{
  targets, begin_delete, begin_delete_current, tombstone_of, purge, purge_found, check_purge,
  is_protected, delete,
}
use proxmox_ovn.Store.Read.{
  ListOptions, snapshot, requested_kinds, tabulate, snapshot_kind, limited, matches, listed_before,
}
use proxmox_ovn.Examples.Data.{
  audited_store, cleared_store, platform, greener, greener_row, greener_store, blue, green,
  blue_row, green_row, going_row, blue_store, green_store, going_store, gone_store,
}

abbrev pub blue_created : Written
blue_created = record { resource = blue_row; replayed = false; store = blue_store }

abbrev pub green_written : Written
green_written = record { resource = green_row; replayed = false; store = green_store }

abbrev pub going_written : Written
going_written = record { resource = going_row; replayed = false; store = going_store }

pub create-blue : create platform false 5 [] blue (text "k") new_memory ≡ ok blue_created
unfolding create replay idempotency_scope find_record fingerprint after_replay create_new
    starts_started check_create prepare_create operation_key set_defaults default_body mark_pending
    lookup validate validate_network validate_name is_name validate_references
    validate_new_reference_states validate_unique stamp_create name_port put put_record remember
    string
create-blue = refl

pub update-green : update platform false 6 green (pos 1) (text "k") blue_store ≡ ok green_written
unfolding update text_beq decimal replay idempotency_scope find_record fingerprint after_replay
    update_current prepare_update check_update set_defaults default_body mark_pending lookup has_key
    validate validate_network validate_name is_name validate_references
    validate_new_reference_states references validate_unique validate_graph validate_all_references
    validate_all_unique restored stamp_update put put_record remember string conflict_field
    external_address_claim
update-green = refl

abbrev pub greener_written : Written
greener_written = record { resource = greener_row; replayed = false; store = greener_store }

pub update-greener :
    update platform false 8 greener (pos 2) (text "l") green_store ≡ ok greener_written
unfolding update text_beq decimal replay idempotency_scope find_record fingerprint after_replay
    update_current prepare_update check_update set_defaults default_body mark_pending lookup has_key
    validate validate_network validate_name is_name validate_references
    validate_new_reference_states references validate_unique validate_graph validate_all_references
    validate_all_unique restored stamp_update put put_record remember string conflict_field
    external_address_claim
update-greener = refl

-- Every network, without a limit.
abbrev pub all_networks : ListOptions
all_networks = record {
  network_id = [];
  subnet_id = [];
  router_id = [];
  security_group_id = [];
  provider_network_id = [];
  node_id = [];
  vmid = pos 0;
  nic = [];
  recent_first = false;
  limit = pos 0;
}

abbrev pub one_network : ListOptions
one_network = record all_networks { limit = pos 1 }

pub snapshot_blue :
    snapshot false (Kind.network ∷ []) all_networks blue_store
    ≡ ok ((Kind.network, blue_row ∷ []) ∷ [])
unfolding snapshot requested_kinds tabulate snapshot_kind limited matches listed_before sort
    insert_sorted
snapshot_blue = refl

pub snapshot_one :
    snapshot false (Kind.network ∷ []) one_network blue_store
    ≡ ok ((Kind.network, blue_row ∷ []) ∷ [])
unfolding snapshot requested_kinds tabulate snapshot_kind limited matches listed_before sort
    insert_sorted
snapshot_one = refl

pub begin_delete_green :
    begin_delete platform false 7 Kind.network (text "n") (pos 2) (text "k") green_store
    ≡ ok going_written
unfolding begin_delete text_beq decimal replay idempotency_scope find_record delete_fingerprint
    after_replay begin_delete_current is_referenced has_referrer lookup has_key references
    tombstone_of mark_pending put put_record remember string
begin_delete_green = refl

pub purge_going : purge false Kind.network (text "n") (pos 3) going_store ≡ ok gone_store
unfolding purge text_beq purge_found check_purge lookup has_key is_referenced has_referrer
    references is_protected rows remove
purge_going = refl

pub purge_audited : purge false Kind.network (text "n") (pos 3) audited_store ≡ ok cleared_store
unfolding purge text_beq purge_found check_purge lookup has_key is_referenced has_referrer
    references is_protected targets rows remove
purge_audited = refl

pub delete_green :
    delete platform false 7 Kind.network (text "n") (pos 2) (text "k") green_store
    ≡ ok (false, gone_store)
unfolding delete text_beq decimal begin_delete replay idempotency_scope find_record
    delete_fingerprint after_replay begin_delete_current is_referenced has_referrer lookup has_key
    references tombstone_of mark_pending put put_record remember string purge purge_found
    check_purge is_protected rows remove
delete_green = refl
