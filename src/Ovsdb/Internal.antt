-- ===== src/Ovsdb/Internal.antt =====
-- The store's own rows in internal/ovsdbstore/codec.go: encodeLockRow and encodeIdempotencyRow.
use proxmox_ovn.Prelude.{ℕ, Bool, true, false, ◌++◌, [], ◌∷◌, pos}
use proxmox_ovn.Text.{Text, text}
use proxmox_ovn.Model.Kind.{string}
use proxmox_ovn.Model.Resource.{Resource, resource_kind}
use proxmox_ovn.Ovsdb.Outcome.{Outcome, done, ◌>>=◌}
use proxmox_ovn.Ovsdb.Row.{Row, str, number, atom}
use proxmox_ovn.Ovsdb.Snapshot.{Wire}
use proxmox_ovn.Ovsdb.Fields.{External, encode_string_map, encode_operation_payload}
use proxmox_ovn.Ovsdb.Database.{store_lock_id, internal_scope_key, internal_id_prefix, payload_of}

-- The columns that both rows share: a succeeded operation of revision 1.
abbrev own_row : Wire → ℕ → Text → Text → Text → Text → Text → External → Row
own_row wire now id action target_kind key completed pairs =
    (text "id", atom (str id))
    ∷ (text "action", atom (str action))
    ∷ (text "target_kind", atom (str target_kind))
    ∷ (text "target_id", atom (str id))
    ∷ (text "operation_status", atom (str (text "succeeded")))
    ∷ (text "idempotency_key", atom (str key))
    ∷ (text "error", atom (str []))
    ∷ (text "started_at", atom (str []))
    ∷ (text "completed_at", atom (str completed))
    ∷ (text "revision", atom (number (pos 1)))
    ∷ (text "applied_revision", atom (number (pos 1)))
    ∷ (text "state", atom (str (text "ready")))
    ∷ (text "last_error", atom (str []))
    ∷ (text "created_at", atom (str (wire.format_time now)))
    ∷ (text "updated_at", atom (str (wire.format_time now)))
    ∷ (text "external_ids", encode_string_map pairs)
    ∷ []

-- encodeLockRow
unfoldable pub encode_lock_row : Wire → ℕ → Row
encode_lock_row wire now =
    (text "target_revision", atom (number (pos 1)))
    ∷ own_row wire now store_lock_id (text "internal-lock") (text "internal") store_lock_id []
        ((text "pvn:internal-type", text "store-lock") ∷ [])

-- idempotencyRowID
unfoldable pub idempotency_row_id : Wire → Text → Text
idempotency_row_id wire scope =
    internal_id_prefix ++ text "idem_" ++ wire.encode_digest (wire.platform.sha256 scope)

-- strconv.FormatBool
abbrev pub format_bool : Bool → Text
format_bool true = text "true"
format_bool false = text "false"

-- encodeIdempotencyRow
unfoldable pub encode_idempotency_row : Wire → Text → ℕ → Resource → Bool → ℕ → Outcome Row
encode_idempotency_row wire scope fingerprint resource deleted now =
    encode_operation_payload wire (payload_of resource.body) >>= λ carried. done (
      (text "target_revision", atom (number resource.meta.revision))
      ∷ own_row wire now (idempotency_row_id wire scope) (text "idempotency")
          (string (resource_kind resource)) (internal_scope_key ++ scope) (wire.format_time now)
          ((text "pvn:internal-type", text "idempotency")
            ∷ (text "pvn:fingerprint", wire.encode_digest fingerprint)
            ∷ (text "pvn:resource", wire.platform.marshal resource)
            ∷ (text "pvn:resource-kind", string (resource_kind resource))
            ∷ (text "pvn:deleted", format_bool deleted)
            ∷ carried))
