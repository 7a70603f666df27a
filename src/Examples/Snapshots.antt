-- ===== src/Examples/Snapshots.antt =====
-- The theorems on decoded snapshots, at a network's row, the lock's row and a remembered result.
use proxmox_ovn.Prelude.{In, ◌≡◌, refl, true, false, [], ◌∷◌, ◌++◌, some, pos}
use proxmox_ovn.Text.{text, text_beq}
use proxmox_ovn.Result.{ok}
use proxmox_ovn.Model.Kind.{Kind, string}
use proxmox_ovn.Model.Patterns.{is_name}
use proxmox_ovn.Model.Validation.{validate_name}
use proxmox_ovn.Model.Validation.Address.{validate_network}
use proxmox_ovn.Model.Validation.Whole.{validate}
use proxmox_ovn.Ovsdb.Row.{has_repeat}
use proxmox_ovn.Ovsdb.Outcome.{done}
use proxmox_ovn.Ovsdb.Row.{
  Row, str, number, uuid, atom, column, atom_string, atom_uuid, value_uuid, optional_uuid,
  value_set, row_string, row_bool, row_int64, row_uuid, row_reference, row_map, row_string_map,
  row_time,
}
use proxmox_ovn.Ovsdb.Words.{state_of}
use proxmox_ovn.Ovsdb.Snapshot.{Snapshot}
use proxmox_ovn.Ovsdb.Fields.{
  decode_metadata, decode_reference, external, encode_string_map, encode_operation_payload,
}
use proxmox_ovn.Ovsdb.Decode.{decode_resource, decode_body, decode_network}
use proxmox_ovn.Ovsdb.Internal.{encode_idempotency_row, idempotency_row_id}
use proxmox_ovn.Ovsdb.Database.{
  RawDatabase, with_kind, index_row, over_tables, decode_lock, is_lock, after_prefix, is_taken_id,
  decode_stored, decode_internal_operation, decode_row, decode_rows, with_payload, bad_metadata,
}
use proxmox_ovn.Ovsdb.Held.{IsWhole}
use proxmox_ovn.Model.Resource.{Resource}
use proxmox_ovn.Store.References.{validate_references}
use proxmox_ovn.Store.Unique.{external_address_claim}
use proxmox_ovn.Store.Integrity.{IsClosed}
use proxmox_ovn.Store.Uniqueness.Rows.{IsDistinct}
use proxmox_ovn.Ovsdb.Unique.{unique_keys, has_overlap, is_snapshot_unique}
use proxmox_ovn.Ovsdb.Whole.{table_of, check_stored, decode_database, decode_database_well_formed}
use proxmox_ovn.Ovsdb.Remembered.{decode_internal_operation-encode_idempotency_row}
use proxmox_ovn.Examples.Data.{blue_row, plain_wire}

abbrev network_row : Row
network_row =
    (text "_uuid", atom (uuid (text "un")))
    ∷ (text "id", atom (str (text "n")))
    ∷ (text "revision", atom (number (pos 1)))
    ∷ (text "state", atom (str (text "pending")))
    ∷ (text "created_at", atom (str (5 ∷ [])))
    ∷ (text "updated_at", atom (str (5 ∷ [])))
    ∷ (text "name", atom (str (text "blue")))
    ∷ (text "mtu", atom (number (pos 1400)))
    ∷ []

abbrev lock_row : Row
lock_row =
    (text "_uuid", atom (uuid (text "ul")))
    ∷ (text "id", atom (str (text "__pvn_store_lock__")))
    ∷ (text "action", atom (str (text "internal-lock")))
    ∷ (text "target_kind", atom (str (text "internal")))
    ∷ (text "target_id", atom (str (text "__pvn_store_lock__")))
    ∷ (text "operation_status", atom (str (text "succeeded")))
    ∷ (text "idempotency_key", atom (str (text "__pvn_store_lock__")))
    ∷ (text "revision", atom (number (pos 7)))
    ∷ (text "state", atom (str (text "ready")))
    ∷ (text "external_ids", encode_string_map ((text "pvn:internal-type", text "store-lock") ∷ []))
    ∷ []

abbrev two_rows : RawDatabase
two_rows Kind.network = some (network_row ∷ [])
two_rows Kind.operation = some (lock_row ∷ [])
two_rows _ = some []

abbrev decoded : Snapshot
decoded = record {
  epoch = pos 7;
  has_lock = true;
  resources =
      with_kind Kind.network ((text "n", record { uuid = text "un"; resource = blue_row }) ∷ [])
        (λ kind. []);
  uuid_to_id =
      with_kind Kind.operation ((text "ul", text "__pvn_store_lock__") ∷ [])
        (with_kind Kind.network ((text "un", text "n") ∷ []) (λ kind. []));
  idempotency = [];
}

two_rows-decoded : decode_rows plain_wire two_rows ≡ done decoded
unfolding decode_rows over_tables index_row decode_row decode_stored decode_internal_operation
    decode_lock is_lock is_taken_id after_prefix decode_resource decode_body decode_network
    decode_metadata decode_reference row_reference row_string row_bool row_int64 row_uuid row_map
    row_string_map row_time column atom_string value_uuid atom_uuid value_set optional_uuid state_of
    external encode_string_map text_beq
two_rows-decoded = refl

two_rows_accepted : decode_database plain_wire two_rows ≡ done decoded
unfolding decode_database check_stored validate validate_network validate_name is_name
    validate_references is_snapshot_unique unique_keys has_overlap has_repeat external_address_claim
two_rows_accepted = rw (two_rows-decoded, decode_database) refl

decode_database_well_formed_example :
    IsClosed (table_of decoded)
    × IsDistinct (table_of decoded)
    × ((r : Resource) → In r (table_of decoded) → validate plain_wire.platform r.body ≡ ok tt)
    × IsWhole decoded
decode_database_well_formed_example =
    decode_database_well_formed plain_wire two_rows decoded two_rows_accepted

abbrev result_row : Row
result_row =
    (text "target_revision", atom (number (pos 1)))
    ∷ (
      text "id",
      atom (str (text "__pvn_internal_idem_" ++ (plain_wire.platform.sha256 (text "k") ∷ []))),
    )
    ∷ (text "action", atom (str (text "idempotency")))
    ∷ (text "target_kind", atom (str (text "network")))
    ∷ (
      text "target_id",
      atom (str (text "__pvn_internal_idem_" ++ (plain_wire.platform.sha256 (text "k") ∷ []))),
    )
    ∷ (text "operation_status", atom (str (text "succeeded")))
    ∷ (text "idempotency_key", atom (str (text "__pvn_internal_idem_scope__/k")))
    ∷ (text "error", atom (str []))
    ∷ (text "started_at", atom (str []))
    ∷ (text "completed_at", atom (str (9 ∷ [])))
    ∷ (text "revision", atom (number (pos 1)))
    ∷ (text "applied_revision", atom (number (pos 1)))
    ∷ (text "state", atom (str (text "ready")))
    ∷ (text "last_error", atom (str []))
    ∷ (text "created_at", atom (str (9 ∷ [])))
    ∷ (text "updated_at", atom (str (9 ∷ [])))
    ∷ (
      text "external_ids",
      encode_string_map (
          (text "pvn:internal-type", text "idempotency")
          ∷ (text "pvn:fingerprint", 77 ∷ [])
          ∷ (text "pvn:resource", text "nblue")
          ∷ (text "pvn:resource-kind", text "network")
          ∷ (text "pvn:deleted", text "false")
          ∷ []),
    )
    ∷ []

result_written : encode_idempotency_row plain_wire (text "k") 77 blue_row false 9 ≡ done result_row
unfolding encode_idempotency_row idempotency_row_id encode_operation_payload string
    encode_string_map
result_written = refl

reads_back :
    plain_wire.unmarshal_resource Kind.network (plain_wire.platform.marshal blue_row)
    ≡ some (record blue_row { body = with_payload [] blue_row.body })
unfolding with_payload
reads_back = refl

blue_sound : bad_metadata blue_row.meta ≡ false
unfolding bad_metadata
blue_sound = refl

blue_valid : validate plain_wire.platform blue_row.body ≡ ok tt
unfolding validate validate_network validate_name is_name
blue_valid = refl

decode_internal_operation-encode_idempotency_row_example :
    decode_internal_operation plain_wire result_row decoded
    ≡ done (
        some (record decoded {
          idempotency =
              (text "k", record { fingerprint_bytes = 77; resource = blue_row; deleted = false })
              ∷ [];
        }))
decode_internal_operation-encode_idempotency_row_example =
    decode_internal_operation-encode_idempotency_row plain_wire blue_row 77 false reads_back refl
      blue_sound refl blue_valid (text "k") 9 result_row decoded refl refl result_written
