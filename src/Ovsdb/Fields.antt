-- ===== src/Ovsdb/Fields.antt =====
-- How codec.go writes and reads one field: references, sets, external ids, times and metadata.
use proxmox_ovn.Prelude.{
  ℕ, Bool, not, ◌||◌, ◌&&◌, ◌*◌, List, [], ◌∷◌, map, length, Option, none, some, pos, ltb, ltb_ℤ,
  nat_beq, any, sort, ◌==◌, if◌then◌else◌,
}
use proxmox_ovn.Text.{Text, text, text_eq, text_lt, is_empty}
use proxmox_ovn.Result.{Error}
use proxmox_ovn.Model.Kind.{Kind}
use proxmox_ovn.Model.Validation.Policy.{validate_operation_payload}
use proxmox_ovn.Model.Resource.{Metadata, IpRange, FixedIp}
use proxmox_ovn.Ovsdb.Outcome.{
  Outcome, done, malformed, refused, ◌>>=◌, ◌>>◌, unless, or_failed, checked, collect,
}
use proxmox_ovn.Ovsdb.Words.{state_text, state_of}
use proxmox_ovn.Ovsdb.Snapshot.{Snapshot, Wire, find}
use proxmox_ovn.Ovsdb.Row.{
  Atom, Value, Row, str, number, uuid, atom, set, atom_string, atom_uuid, has_repeat, row_string,
  row_int64, row_reference, row_set, row_string_set, row_map, row_time,
}

-- `ref` of encodeResource
unfoldable pub encode_reference : Snapshot → Kind → Bool → Text → Outcome Value
encode_reference refs kind optional id =
    let found = or_failed (find id (refs.resources kind)) (refused Error.conflict) >>= λ entry.
    done (if optional then set (uuid entry.uuid ∷ []) else atom (uuid entry.uuid)) in
    if is_empty id && optional then done (set []) else found

-- `ref` of decodeResource
unfoldable pub decode_reference : Snapshot → Kind → Bool → Text → Row → Outcome Text
decode_reference refs kind optional name row = row_reference name optional row >>= λ key.
    if is_empty key then done [] else or_failed (find key (refs.uuid_to_id kind)) malformed

-- encodeStringSet
unfoldable pub encode_string_set : List Text → Value
encode_string_set values = set (map Atom.str values)

-- encodeUniqueStringSet
unfoldable pub encode_unique_string_set : List Text → Outcome Value
encode_unique_string_set values = do
  unless (has_repeat values) (refused Error.conflict)
  done (encode_string_set values)

-- encodeIPRanges
unfoldable pub encode_ip_ranges : Wire → List IpRange → Outcome Value
encode_ip_ranges wire values = encode_unique_string_set (map wire.marshal_range values)

unfoldable pub range_before : IpRange → IpRange → Bool
range_before a b = if a.start == b.start then text_lt a.end b.end else text_lt a.start b.start

-- decodeIPRanges
unfoldable pub decode_ip_ranges : Wire → Text → Row → Outcome (List IpRange)
decode_ip_ranges wire name row = do
  values ← row_string_set name row
  ranges ← collect (λ value. or_failed (wire.unmarshal_range value) malformed) values
  done (sort range_before ranges)

-- The UUID of an id that must stand in the snapshot.
unfoldable pub uuid_of : Snapshot → Kind → Text → Outcome Atom
uuid_of refs kind id =
    or_failed (find id (refs.resources kind)) (refused Error.conflict) >>= λ entry.
    done (uuid entry.uuid)

-- The id that a UUID of a row stands for.
unfoldable pub id_of : Snapshot → Kind → Atom → Outcome Text
id_of refs kind a = atom_uuid a >>= λ key. or_failed (find key (refs.uuid_to_id kind)) malformed

abbrev pub fixed_ip_pair : Snapshot → FixedIp → Outcome (Atom × Atom)
fixed_ip_pair refs fixed =
    uuid_of refs Kind.subnet fixed.subnet_id >>= λ key. done (key, Atom.str fixed.address)

abbrev pub fixed_ip_of : Snapshot → Atom × Atom → Outcome FixedIp
fixed_ip_of refs (key, value) = do
  subnet_id ← id_of refs Kind.subnet key
  address ← atom_string value
  done (record { subnet_id = subnet_id; address = address })

-- encodeFixedIPs; different subnets have different UUIDs, so no key of the map is written twice
unfoldable pub encode_fixed_ips : Snapshot → List FixedIp → Outcome Value
encode_fixed_ips refs values = do
  unless (has_repeat (map (λ fixed. fixed.subnet_id) values)) (refused Error.conflict)
  pairs ← collect (fixed_ip_pair refs) values
  done (Value.map pairs)

unfoldable pub subnet_before : FixedIp → FixedIp → Bool
subnet_before a b = text_lt a.subnet_id b.subnet_id

-- decodeFixedIPs
unfoldable pub decode_fixed_ips : Snapshot → Row → Outcome (List FixedIp)
decode_fixed_ips refs row = do
  pairs ← row_map (text "fixed_ips") row
  values ← collect (fixed_ip_of refs) pairs
  done (sort subnet_before values)

-- encodeReferenceSet
unfoldable pub encode_reference_set : Snapshot → Kind → List Text → Outcome Value
encode_reference_set refs kind ids = do
  unless (has_repeat ids) (refused Error.conflict)
  keys ← collect (uuid_of refs kind) ids
  done (set keys)

-- decodeReferenceSet
unfoldable pub decode_reference_set : Snapshot → Kind → Text → Row → Outcome (List Text)
decode_reference_set refs kind name row = do
  values ← row_set name row
  ids ← collect (id_of refs kind) values
  done (sort text_lt ids)

abbrev pub External : Type 0
External = List (Text × Text)

-- external[key]; a missing key reads as "".
unfoldable pub external : Text → External → Text
external key pairs = elim (find key pairs) [ none ↦ [] | some value ↦ value ]

-- encodeStringMap
unfoldable pub encode_string_map : External → Value
encode_string_map pairs = Value.map (map (λ pair. (Atom.str pair.0, Atom.str pair.1)) pairs)

abbrev pub max_resource_external_json_len : ℕ
max_resource_external_json_len = 64 * 1024

-- encodeExternalJSON; the key is not in the map before
unfoldable pub encode_external_json {ℓ} :
    {A : Type ℓ} → (List A → Text) → Text → List A → Outcome External
encode_external_json marshal key [] = done []
encode_external_json marshal key (x ∷ xs) = do
  unless (ltb max_resource_external_json_len (length (marshal (x ∷ xs)))) malformed
  done ((key, marshal (x ∷ xs)) ∷ [])

-- decodeExternalJSON
unfoldable pub decode_external_json {ℓ} :
    {A : Type ℓ} → (Text → Option (List A)) → Text → External → Outcome (List A)
decode_external_json unmarshal key pairs =
    let encoded = external key pairs in
    if is_empty encoded then done [] else or_failed (unmarshal encoded) malformed

-- encodeOperationPayload
unfoldable pub encode_operation_payload : Wire → Text → Outcome External
encode_operation_payload wire payload =
    let written = checked (validate_operation_payload wire.platform payload) >>= λ _.
    done ((text "pvn:compute-payload", payload) ∷ []) in
    if is_empty payload then done [] else written

-- decodeOperationPayload
unfoldable pub decode_operation_payload : Wire → External → Outcome Text
decode_operation_payload wire pairs = do
  unless (any (λ pair. not (pair.0 == text "pvn:compute-payload")) pairs) malformed
  checked (validate_operation_payload wire.platform (external (text "pvn:compute-payload") pairs))
  done (external (text "pvn:compute-payload") pairs)

-- encodeOptionalTime
unfoldable pub encode_optional_time : Wire → Option ℕ → Text
encode_optional_time wire none = []
encode_optional_time wire (some t) = wire.format_time t

-- The columns of the metadata, with both times in RFC 3339.
abbrev pub metadata_columns : Wire → Metadata → Row
metadata_columns wire meta =
    (text "id", atom (str meta.id))
    ∷ (text "revision", atom (number meta.revision))
    ∷ (text "applied_revision", atom (number meta.applied_revision))
    ∷ (text "state", atom (str (state_text meta.state)))
    ∷ (text "last_error", atom (str meta.last_error))
    ∷ (text "created_at", atom (str (wire.format_time meta.created_at)))
    ∷ (text "updated_at", atom (str (wire.format_time meta.updated_at)))
    ∷ []

-- encodeMetadata
unfoldable pub encode_metadata : Wire → Metadata → Outcome Row
encode_metadata wire meta = do
  unless
      (is_empty meta.id
        || ltb_ℤ meta.revision (pos 1)
        || nat_beq meta.created_at 0
        || nat_beq meta.updated_at 0)
      malformed
  done (metadata_columns wire meta)

-- decodeMetadata
unfoldable pub decode_metadata : Wire → Row → Outcome Metadata
decode_metadata wire row = do
  id ← row_string (text "id") row
  revision ← row_int64 (text "revision") row
  applied_revision ← row_int64 (text "applied_revision") row
  state_name ← row_string (text "state") row
  last_error ← row_string (text "last_error") row
  created_at ← row_time wire.parse_time (text "created_at") row
  updated_at ← row_time wire.parse_time (text "updated_at") row
  unless
      (is_empty id
        || ltb_ℤ revision (pos 1)
        || ltb_ℤ applied_revision (pos 0)
        || ltb_ℤ revision applied_revision)
      malformed
  state ← state_of state_name
  done (record {
    id = id;
    revision = revision;
    applied_revision = applied_revision;
    state = state;
    last_error = last_error;
    created_at = created_at;
    updated_at = updated_at;
  })
