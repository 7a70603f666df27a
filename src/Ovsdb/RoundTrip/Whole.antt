-- ===== src/Ovsdb/RoundTrip/Whole.antt =====
-- encodeResource and decodeResource of internal/ovsdbstore/codec.go, on whole resources.
use proxmox_ovn.Prelude.{
  ◌≡◌, refl, sym, ap, ◌∙◌, true, false, ◌||◌, ◌++◌, [], ◌∷◌, all, pos, ltb_ℤ, ltb, ltb→lt, and-true,
  arith,
}
use proxmox_ovn.Text.{text, text_beq, is_empty}
use proxmox_ovn.Model.Resource.{
  Metadata, Resource, Body, body_kind, resource_kind, network, subnet, port, ip_allocation, router,
  router_interface, floating_ip, provider_network, provider_segment, security_group,
  security_group_rule, node, operation,
}
use proxmox_ovn.Ovsdb.Outcome.{done, malformed, bind-done, done_inj, unless, unless-done}
use proxmox_ovn.Ovsdb.Row.{Row, column, row_string, row_int64, row_time, atom_string}
use proxmox_ovn.Ovsdb.Words.{state_of-state_text, is_stored_state}
use proxmox_ovn.Ovsdb.Snapshot.{
  Snapshot, Wire, IsConsistent, IsDocumented, year_10000, is_ascii, is_ascii_range,
}
use proxmox_ovn.Ovsdb.Fields.{
  External, metadata_columns, encode_string_map, encode_metadata, decode_metadata,
}
use proxmox_ovn.Ovsdb.Encode.{encode_body, encode_resource, row_of}
use proxmox_ovn.Ovsdb.Decode.{decode_body, decode_resource}
use proxmox_ovn.Ovsdb.RoundTrip.Plain.{is_plain, is_plain_metadata, is_plain_body, in_order}
use proxmox_ovn.Ovsdb.RoundTrip.Networks.{
  decode_network-encode_network, decode_subnet-encode_subnet, decode_port-encode_port,
  decode_ip_allocation-encode_ip_allocation,
}
use proxmox_ovn.Ovsdb.RoundTrip.Routers.{
  decode_router-encode_router, decode_router_interface-encode_router_interface,
  decode_floating_ip-encode_floating_ip, decode_provider_network-encode_provider_network,
  decode_provider_segment-encode_provider_segment,
}
use proxmox_ovn.Ovsdb.RoundTrip.Policy.{
  decode_security_group-encode_security_group,
  decode_security_group_rule-encode_security_group_rule, decode_node-encode_node,
  decode_operation-encode_operation,
}

encode_metadata_columns :
    (wire : Wire) (meta : Metadata) (columns : Row)
    → encode_metadata wire meta ≡ done columns
    → columns ≡ metadata_columns wire meta
unfolding encode_metadata
encode_metadata_columns wire meta columns h =
    let (u, full, e) = bind-done (unless _ malformed) (λ _. done (metadata_columns wire meta)) h in
    sym (done_inj e)

module _ (wire : Wire) (documented : IsDocumented wire) where
  decode_metadata-encode_metadata :
      (meta : Metadata) (columns : Row) (out : Row × External)
      → is_plain_metadata meta ≡ true
      → encode_metadata wire meta ≡ done columns
      → decode_metadata wire (row_of wire meta out) ≡ done meta
  unfolding encode_metadata decode_metadata row_string row_int64 row_time atom_string column
      text_beq
  decode_metadata-encode_metadata meta columns out plain h =
      let (u, full, e) =
        bind-done (unless _ malformed) (λ _. done (metadata_columns wire meta)) h in
      let complete = unless-done _ malformed full in
      let stored : is_stored_state meta.state ≡ true = ground arith in
      let created : ltb meta.created_at year_10000 ≡ true = ground arith in
      let sound : (is_empty meta.id
            || ltb_ℤ meta.revision (pos 1)
            || ltb_ℤ meta.applied_revision (pos 0)
            || ltb_ℤ meta.revision meta.applied_revision)
          ≡ false =
        ground arith in
      let updated : ltb meta.updated_at year_10000 ≡ true = ground arith in
      rw
        (
          documented.time meta.created_at (ltb→lt _ _ created),
          documented.time meta.updated_at (ltb→lt _ _ updated),
        )
        (rw (sound, state_of-state_text meta.state stored) refl)

module _ (wire : Wire) (documented : IsDocumented wire) (refs : Snapshot)
    (consistent : IsConsistent refs) (meta : Metadata) where
  decode_body-encode_body :
      (body : Body) (out : Row × External)
      → is_plain_body body ≡ true
      → encode_body wire refs body ≡ done out
      → decode_body wire refs (body_kind body) (row_of wire meta out) ≡ done (in_order body)
  unfolding encode_body decode_body
  decode_body-encode_body (network b) out plain h =
      rw (decode_network-encode_network wire refs consistent meta b out h) refl
  decode_body-encode_body (subnet b) out plain h =
      let (domains, pools) =
        and-true (all is_ascii b.dns_search_domains) (all is_ascii_range b.allocation_pools)
          plain in
      rw (decode_subnet-encode_subnet wire documented refs consistent meta b out domains pools h)
        refl
  decode_body-encode_body (port b) out plain h =
      rw (decode_port-encode_port wire refs consistent meta b out plain h) refl
  decode_body-encode_body (ip_allocation b) out plain h =
      rw (decode_ip_allocation-encode_ip_allocation wire refs consistent meta b out plain h) refl
  decode_body-encode_body (router b) out plain h =
      rw (decode_router-encode_router wire documented refs consistent meta b out plain h) refl
  decode_body-encode_body (router_interface b) out plain h =
      rw (decode_router_interface-encode_router_interface wire refs consistent meta b out h) refl
  decode_body-encode_body (floating_ip b) out plain h =
      rw (decode_floating_ip-encode_floating_ip wire refs consistent meta b out plain h) refl
  decode_body-encode_body (provider_network b) out plain h =
      rw (decode_provider_network-encode_provider_network wire refs consistent meta b out h) refl
  decode_body-encode_body (provider_segment b) out plain h =
      rw (decode_provider_segment-encode_provider_segment wire refs consistent meta b out plain h)
        refl
  decode_body-encode_body (security_group b) out plain h =
      rw (decode_security_group-encode_security_group wire refs consistent meta b out h) refl
  decode_body-encode_body (security_group_rule b) out plain h =
      rw
        (decode_security_group_rule-encode_security_group_rule wire refs consistent meta b out
          (ground arith) (ground arith) (ground arith) h)
        refl
  decode_body-encode_body (node b) out plain h =
      rw
        (decode_node-encode_node wire documented meta b out (ground arith) (ground arith)
          (ground arith) h)
        refl
  decode_body-encode_body (operation b) out plain h =
      rw
        (decode_operation-encode_operation wire documented meta b out (ground arith) (ground arith)
          (ground arith) h)
        refl

  decode_resource_body :
      (body : Body) (row : Row)
      → is_plain_metadata meta ≡ true
      → is_plain_body body ≡ true
      → encode_resource wire refs (record { meta = meta; body = body }) ≡ done row
      → decode_resource wire refs (body_kind body) row
        ≡ done (record { meta = meta; body = in_order body })
  unfolding encode_resource decode_resource
  decode_resource_body body row plain_meta plain h =
      let (columns, written, e) = bind-done (encode_metadata wire meta) _ h in
      let (out, written', e') = bind-done (encode_body wire refs body) _ e in
      let here : row ≡ row_of wire meta out =
        sym (done_inj e')
        ∙ ap (λ c. c ++ out.0 ++ ((text "external_ids", encode_string_map out.1) ∷ []))
            (encode_metadata_columns wire meta columns written) in
      rw
        (
          here,
          decode_metadata-encode_metadata wire documented meta columns out plain_meta written,
          decode_body-encode_body body out plain written',
        )
        refl

-- What a resource is written to is read back: if encodeResource gives a row for a plain resource
-- (a known state and known words in its enumerations, an applied revision between 0 and the
-- revision, times before the year 10000, ASCII in the lists that JSON carries, no role twice), then
-- decodeResource of that row and kind is the resource with its name servers, pools, fixed addresses,
-- security groups and roles in order. The snapshot's two maps of UUIDs belong together, and RFC 3339
-- and JSON read back what they wrote.
pub decode_resource-encode_resource :
    (wire : Wire) (documented : IsDocumented wire) (refs : Snapshot)
    (consistent : IsConsistent refs) (resource : Resource) (row : Row)
    → is_plain resource ≡ true
    → encode_resource wire refs resource ≡ done row
    → decode_resource wire refs (resource_kind resource) row
      ≡ done (record resource { body = in_order resource.body })
decode_resource-encode_resource wire documented refs consistent resource row plain h =
    let (plain_meta, plain_body) =
      and-true (is_plain_metadata resource.meta) (is_plain_body resource.body) plain in
    decode_resource_body wire documented refs consistent resource.meta resource.body row plain_meta
      plain_body h
