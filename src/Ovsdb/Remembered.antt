-- ===== src/Ovsdb/Remembered.antt =====
-- The round trip of the store's own rows in internal/ovsdbstore/codec.go.
use proxmox_ovn.Prelude.{ℕ, ◌≡◌, refl, Bool, true, false, [], ◌∷◌, none, some, pos}
use proxmox_ovn.Text.{Text, text, text_eq, text_beq, is_empty}
use proxmox_ovn.Result.{ok}
use proxmox_ovn.Model.Kind.{string}
use proxmox_ovn.Model.Resource.{Resource, Body, resource_kind, operation}
use proxmox_ovn.Model.Validation.Policy.{validate_operation_payload}
use proxmox_ovn.Model.Validation.Whole.{validate}
use proxmox_ovn.Ovsdb.Outcome.{done, bind-done, done_inj, checked}
use proxmox_ovn.Ovsdb.Row.{Row, column, row_string, row_int64, atom_string}
use proxmox_ovn.Ovsdb.Words.{is_stored_state, target_kind_text, target_kind_of-target_kind_text}
use proxmox_ovn.Ovsdb.Snapshot.{Snapshot, Wire, find}
use proxmox_ovn.Ovsdb.Fields.{External, external, encode_operation_payload}
use proxmox_ovn.Ovsdb.RoundTrip.Lists.{row_string_map-encode_string_map}
use proxmox_ovn.Ovsdb.Internal.{encode_lock_row, encode_idempotency_row, format_bool}
use proxmox_ovn.Ovsdb.Database.{
  parse_bool, is_lock, with_payload, payload_of, bad_metadata, decode_lock, decode_result,
  decode_idempotency, decode_internal_operation, decode_own,
}

pub decode_internal_operation-encode_lock_row :
    (wire : Wire) (now : ℕ) (s : Snapshot)
    → s.has_lock ≡ false
    → decode_internal_operation wire (encode_lock_row wire now) s
      ≡ done (some (record s { epoch = pos 1; has_lock = true }))
unfolding decode_internal_operation encode_lock_row decode_lock is_lock row_string row_int64 column
    atom_string text_beq external
decode_internal_operation-encode_lock_row wire now s free =
    rw
      (row_string_map-encode_string_map ((text "pvn:internal-type", text "store-lock") ∷ [])
        (text "external_ids") _ refl)
      (rw free refl)

parse_bool-format_bool : (b : Bool) → parse_bool (format_bool b) ≡ some b
unfolding parse_bool text_beq
parse_bool-format_bool true = refl
parse_bool-format_bool false = refl

carried_payload :
    (wire : Wire) (payload : Text) (carried : External)
    → encode_operation_payload wire payload ≡ done carried
    → (external (text "pvn:compute-payload") carried ≡ payload)
      × (checked (validate_operation_payload wire.platform payload) ≡ done tt)
unfolding encode_operation_payload external text_beq validate_operation_payload
carried_payload wire [] carried h = rw (← done_inj h) (refl, refl)
carried_payload wire (c ∷ payload) carried h =
    let (u, valid, e) =
      bind-done (checked (validate_operation_payload wire.platform (c ∷ payload)))
        (λ _. done ((text "pvn:compute-payload", c ∷ payload) ∷ [])) h in
    rw (← done_inj e) (refl, valid)

with_payload_again : (body : Body) → with_payload (payload_of body) (with_payload [] body) ≡ body
unfolding with_payload
with_payload_again (operation o) = refl
with_payload_again _ = refl

module _ (wire : Wire) (resource : Resource) (fingerprint : ℕ) (deleted : Bool)
    (read : wire.unmarshal_resource (resource_kind resource) (wire.platform.marshal resource)
      ≡ some (record resource { body = with_payload [] resource.body }))
    (digest : wire.decode_digest (wire.encode_digest fingerprint) ≡ some fingerprint)
    (sound : bad_metadata resource.meta ≡ false)
    (stored : is_stored_state resource.meta.state ≡ true)
    (valid : validate wire.platform resource.body ≡ ok tt) where
  decode_result_lem :
      (carried : External)
      → encode_operation_payload wire (payload_of resource.body) ≡ done carried
      → decode_result wire (
          (text "pvn:internal-type", text "idempotency")
          ∷ (text "pvn:fingerprint", wire.encode_digest fingerprint)
          ∷ (text "pvn:resource", wire.platform.marshal resource)
          ∷ (text "pvn:resource-kind", string (resource_kind resource))
          ∷ (text "pvn:deleted", format_bool deleted)
          ∷ carried)
        ≡ done (record { fingerprint_bytes = fingerprint; resource = resource; deleted = deleted })
  unfolding decode_result external text_beq target_kind_text
  decode_result_lem carried h =
      let (there, fine) = carried_payload wire (payload_of resource.body) carried h in
      rw (digest, decode_result)
        (rw (target_kind_of-target_kind_text (some (resource_kind resource))) (
          rw (read, there, external)
            (rw (with_payload_again resource.body, fine)
              (rw (sound, stored) (rw (valid, parse_bool-format_bool deleted) refl)))))

  -- What a request with an idempotency key has had is read back from its row: decodeDatabase
  -- records under the scope the fingerprint, the resource with the payload of an operation, and the
  -- deletion marker that encodeIdempotencyRow was given, if the scope is not empty and not recorded
  -- yet. The resource is sound and valid, JSON reads it back without its payload, and the digest's
  -- hex is read back.
  pub decode_internal_operation-encode_idempotency_row :
      (scope : Text) (now : ℕ) (row : Row) (s : Snapshot)
      → is_empty scope ≡ false
      → find scope s.idempotency ≡ none
      → encode_idempotency_row wire scope fingerprint resource deleted now ≡ done row
      → decode_internal_operation wire row s
        ≡ done (
            some (record s {
              idempotency =
                  (
                    scope,
                    record {
                      fingerprint_bytes = fingerprint;
                      resource = resource;
                      deleted = deleted;
                    },
                  )
                  ∷ s.idempotency;
            }))
  unfolding decode_internal_operation decode_own decode_idempotency encode_idempotency_row
      row_string column atom_string text_beq external
  decode_internal_operation-encode_idempotency_row scope now row s full free h =
      let (carried, e, e') =
        bind-done (encode_operation_payload wire (payload_of resource.body)) _ h in
      rw (← done_inj e', row_string_map-encode_string_map _ (text "external_ids") _ refl)
        (rw full (rw (decode_result_lem carried e) (rw free refl)))
