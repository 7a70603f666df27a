-- ===== src/Ovsdb/RoundTrip/Routers.antt =====
-- Routers, their interfaces, floating IPs and provider networks.
use proxmox_ovn.Prelude.{◌≡◌, refl, true, false, all}
use proxmox_ovn.Text.{text, text_eq, text_beq}
use proxmox_ovn.Model.Kind.{Kind}
use proxmox_ovn.Model.Resource.{
  Metadata, Router, RouterInterface, FloatingIp, ProviderNetwork, ProviderSegment,
}
use proxmox_ovn.Ovsdb.Outcome.{done, bind-done, done_inj}
use proxmox_ovn.Ovsdb.Snapshot.{Snapshot, IsConsistent, Wire, IsDocumented, is_ascii_route}
use proxmox_ovn.Ovsdb.Words.{
  floating_status_of-floating_status_text, floating_status_known, network_type_of-network_type_text,
  network_type_known,
}
use proxmox_ovn.Ovsdb.Row.{Row, column, atom_string, row_string, row_bool, row_int64}
use proxmox_ovn.Ovsdb.Fields.{External, encode_reference, encode_external_json}
use proxmox_ovn.Ovsdb.Encode.{
  encode_router, encode_router_interface, encode_floating_ip, encode_provider_network,
  encode_provider_segment, row_of,
}
use proxmox_ovn.Ovsdb.Decode.{
  decode_router, decode_router_interface, decode_floating_ip, decode_provider_network,
  decode_provider_segment,
}
use proxmox_ovn.Ovsdb.RoundTrip.Parts.{decode_reference-encode_reference}
use proxmox_ovn.Ovsdb.RoundTrip.Lists.{
  row_string_map-encode_string_map, decode_external_json-encode_external_json,
}

module _ (wire : Wire) (refs : Snapshot) (consistent : IsConsistent refs) (meta : Metadata) where
  pub decode_router_interface-encode_router_interface :
      (r : RouterInterface) (out : Row × External)
      → encode_router_interface refs r ≡ done out
      → decode_router_interface refs (row_of wire meta out) ≡ done (r)
  unfolding column decode_router_interface encode_router_interface text_beq
  decode_router_interface-encode_router_interface r out h =
      let (v1, w1, e1) = bind-done (encode_reference refs Kind.router false r.router_id) _ h in
      let (v2, w2, e2) = bind-done (encode_reference refs Kind.subnet false r.subnet_id) _ e1 in
      let (v3, w3, e3) = bind-done (encode_reference refs Kind.port true r.port_id) _ e2 in
      rw
        (
          ← done_inj e3,
          decode_reference-encode_reference refs consistent Kind.router false r.router_id
              (text "router") _ v1 w1 refl,
          decode_reference-encode_reference refs consistent Kind.subnet false r.subnet_id
              (text "subnet") _ v2 w2 refl,
          decode_reference-encode_reference refs consistent Kind.port true r.port_id (text "port") _
              v3 w3 refl,
        )
        refl

  pub decode_floating_ip-encode_floating_ip :
      (f : FloatingIp) (out : Row × External)
      → floating_status_known f.floating_status ≡ true
      → encode_floating_ip refs f ≡ done out
      → decode_floating_ip refs (row_of wire meta out) ≡ done (f)
  unfolding atom_string column decode_floating_ip encode_floating_ip row_string text_beq
  decode_floating_ip-encode_floating_ip f out floating_status_is_known h =
      let (v1, w1, e1) =
        bind-done (encode_reference refs Kind.provider_network false f.provider_network_id) _ h in
      let (v2, w2, e2) = bind-done (encode_reference refs Kind.port true f.port_id) _ e1 in
      let (v3, w3, e3) = bind-done (encode_reference refs Kind.router true f.router_id) _ e2 in
      rw
        (
          ← done_inj e3,
          decode_reference-encode_reference refs consistent Kind.provider_network false
              f.provider_network_id (text "provider_network") _ v1 w1 refl,
          decode_reference-encode_reference refs consistent Kind.port true f.port_id (text "port") _
              v2 w2 refl,
          decode_reference-encode_reference refs consistent Kind.router true f.router_id
              (text "router") _ v3 w3 refl,
        )
        (rw (floating_status_of-floating_status_text f.floating_status floating_status_is_known)
          refl)

  pub decode_provider_network-encode_provider_network :
      (p : ProviderNetwork) (out : Row × External)
      → encode_provider_network refs p ≡ done out
      → decode_provider_network refs (row_of wire meta out) ≡ done (p)
  unfolding atom_string column decode_provider_network encode_provider_network row_string text_beq
  decode_provider_network-encode_provider_network p out h =
      let (v1, w1, e1) =
        bind-done (encode_reference refs Kind.provider_segment true p.default_segment_id) _ h in
      rw
        (
          ← done_inj e1,
          decode_reference-encode_reference refs consistent Kind.provider_segment true
              p.default_segment_id (text "default_segment") _ v1 w1 refl,
        )
        refl

  pub decode_provider_segment-encode_provider_segment :
      (p : ProviderSegment) (out : Row × External)
      → network_type_known p.network_type ≡ true
      → encode_provider_segment refs p ≡ done out
      → decode_provider_segment refs (row_of wire meta out) ≡ done (p)
  unfolding atom_string column decode_provider_segment encode_provider_segment row_int64 row_string
      text_beq
  decode_provider_segment-encode_provider_segment p out network_type_is_known h =
      let (v1, w1, e1) =
        bind-done (encode_reference refs Kind.provider_network false p.provider_network_id) _ h in
      rw
        (
          ← done_inj e1,
          decode_reference-encode_reference refs consistent Kind.provider_network false
              p.provider_network_id (text "provider_network") _ v1 w1 refl,
        )
        (rw (network_type_of-network_type_text p.network_type network_type_is_known) refl)

module _ (wire : Wire) (documented : IsDocumented wire) (refs : Snapshot)
    (consistent : IsConsistent refs) (meta : Metadata) where
  pub decode_router-encode_router :
      (r : Router) (out : Row × External)
      → all is_ascii_route r.static_routes ≡ true
      → encode_router wire refs r ≡ done out
      → decode_router wire refs (row_of wire meta out) ≡ done r
  unfolding encode_router decode_router row_string row_bool column atom_string text_beq
  decode_router-encode_router r out ascii h =
      let (v1, w1, e1) =
        bind-done (encode_reference refs Kind.network true r.external_network_id) _ h in
      let (v2, w2, e2) =
        bind-done (encode_reference refs Kind.subnet true r.external_subnet_id) _ e1 in
      let (v3, w3, e3) =
        bind-done
          (encode_external_json wire.marshal_routes (text "pvn:static-routes") r.static_routes) _
          e2 in
      rw
        (
          ← done_inj e3,
          decode_reference-encode_reference refs consistent Kind.network true r.external_network_id
              (text "external_network") _ v1 w1 refl,
          decode_reference-encode_reference refs consistent Kind.subnet true r.external_subnet_id
              (text "external_subnet") _ v2 w2 refl,
          row_string_map-encode_string_map v3 (text "external_ids") _ refl,
          decode_external_json-encode_external_json wire.marshal_routes wire.unmarshal_routes
              (text "pvn:static-routes") r.static_routes v3
              (documented.routes_written r.static_routes) (documented.routes r.static_routes ascii)
              w3,
        )
        refl
