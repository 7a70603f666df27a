-- ===== src/Ovsdb/RoundTrip/Networks.antt =====
-- Round trips: Networks, subnets, ports and address allocations, in internal/ovsdbstore/codec.go.
use proxmox_ovn.Prelude.{◌≡◌, inl, inr, refl, true, false, List, [], ◌∷◌, ◌++◌, all, sort, Option}
use proxmox_ovn.Text.{Text, text, text_eq, text_beq, text_lt}
use proxmox_ovn.Model.Kind.{Kind}
use proxmox_ovn.Model.Resource.{Metadata, Network, Subnet, Port, IpAllocation}
use proxmox_ovn.Ovsdb.Outcome.{done, bind-done, done_inj}
use proxmox_ovn.Ovsdb.Snapshot.{
  Snapshot, IsConsistent, Wire, IsDocumented, is_ascii, is_ascii_range,
}
use proxmox_ovn.Ovsdb.Words.{
  allocation_state_of-allocation_state_text, allocation_state_known,
  binding_status_of-binding_status_text, binding_status_known,
}
use proxmox_ovn.Ovsdb.Row.{Row, column, atom_string, row_string, row_bool, row_int64}
use proxmox_ovn.Ovsdb.Fields.{
  External, external, decode_external_json, encode_reference, encode_reference_set,
  encode_fixed_ips, encode_ip_ranges, encode_unique_string_set, encode_external_json, subnet_before,
  range_before,
}
use proxmox_ovn.Ovsdb.Encode.{
  encode_network, encode_subnet, encode_port, encode_ip_allocation, row_of, domain_pair,
}
use proxmox_ovn.Ovsdb.Decode.{decode_network, decode_subnet, decode_port, decode_ip_allocation}
use proxmox_ovn.Ovsdb.RoundTrip.Parts.{
  decode_reference-encode_reference, row_string_set-encode_unique_string_set,
}
use proxmox_ovn.Ovsdb.RoundTrip.Lists.{
  decode_reference_set-encode_reference_set, decode_fixed_ips-encode_fixed_ips,
  decode_ip_ranges-encode_ip_ranges, row_string_map-encode_string_map, encode_external_json-cases,
  decode_external_json-encode_external_json,
}

module _ (wire : Wire) (refs : Snapshot) (consistent : IsConsistent refs) (meta : Metadata) where
  pub decode_network-encode_network :
      (n : Network) (out : Row × External)
      → encode_network refs n ≡ done out
      → decode_network refs (row_of wire meta out) ≡ done (n)
  unfolding atom_string column decode_network encode_network row_bool row_int64 row_string text_beq
  decode_network-encode_network n out h =
      let (v1, w1, e1) =
        bind-done (encode_reference refs Kind.provider_network true n.provider_network_id) _ h in
      rw
        (
          ← done_inj e1,
          decode_reference-encode_reference refs consistent Kind.provider_network true
              n.provider_network_id (text "provider_network") _ v1 w1 refl,
        )
        refl

  pub decode_port-encode_port :
      (p : Port) (out : Row × External)
      → binding_status_known p.binding_status ≡ true
      → encode_port refs p ≡ done out
      → decode_port refs (row_of wire meta out)
        ≡ done (record p {
          fixed_ips = sort subnet_before p.fixed_ips;
          security_group_ids = sort text_lt p.security_group_ids;
        })
  unfolding atom_string column decode_port encode_port row_bool row_int64 row_string text_beq
  decode_port-encode_port p out binding_status_is_known h =
      let (v1, w1, e1) = bind-done (encode_reference refs Kind.network false p.network_id) _ h in
      let (v2, w2, e2) = bind-done (encode_fixed_ips refs p.fixed_ips) _ e1 in
      let (v3, w3, e3) =
        bind-done (encode_reference_set refs Kind.security_group p.security_group_ids) _ e2 in
      let (v4, w4, e4) = bind-done (encode_reference refs Kind.node true p.node_id) _ e3 in
      rw
        (
          ← done_inj e4,
          decode_reference-encode_reference refs consistent Kind.network false p.network_id
              (text "network") _ v1 w1 refl,
          decode_fixed_ips-encode_fixed_ips refs consistent p.fixed_ips _ v2 w2 refl,
          decode_reference_set-encode_reference_set refs consistent Kind.security_group
              p.security_group_ids (text "security_groups") _ v3 w3 refl,
          decode_reference-encode_reference refs consistent Kind.node true p.node_id (text "node") _
              v4 w4 refl,
        )
        (rw (binding_status_of-binding_status_text p.binding_status binding_status_is_known) refl)

  pub decode_ip_allocation-encode_ip_allocation :
      (i : IpAllocation) (out : Row × External)
      → allocation_state_known i.allocation_state ≡ true
      → encode_ip_allocation refs i ≡ done out
      → decode_ip_allocation refs (row_of wire meta out) ≡ done (i)
  unfolding atom_string column decode_ip_allocation encode_ip_allocation row_string text_beq
  decode_ip_allocation-encode_ip_allocation i out allocation_state_is_known h =
      let (v1, w1, e1) = bind-done (encode_reference refs Kind.subnet false i.subnet_id) _ h in
      let (v2, w2, e2) = bind-done (encode_reference refs Kind.port true i.port_id) _ e1 in
      rw
        (
          ← done_inj e2,
          decode_reference-encode_reference refs consistent Kind.subnet false i.subnet_id
              (text "subnet") _ v1 w1 refl,
          decode_reference-encode_reference refs consistent Kind.port true i.port_id (text "port") _
              v2 w2 refl,
        )
        (rw (allocation_state_of-allocation_state_text i.allocation_state allocation_state_is_known)
          refl)

-- The domain and the search domains stand under different keys of one map.
module _ (marshal : List Text → Text) (domains : List Text) (pairs : External)
    (h : encode_external_json marshal (text "pvn:dns-search-domains") domains ≡ done pairs) where
  external_domain :
      (domain : Text) → external (text "pvn:dns-domain") (domain_pair domain ++ pairs) ≡ domain
  unfolding external domain_pair text_beq
  external_domain [] =
      elim (encode_external_json-cases marshal (text "pvn:dns-search-domains") domains pairs h) [
        | inl (e, e') ↦ rw e' refl
        | inr e ↦ rw e refl
      ]
  external_domain (c ∷ domain) = refl

  skip_domain :
      (unmarshal : Text → Option (List Text)) (domain : Text)
      → decode_external_json unmarshal (text "pvn:dns-search-domains") (domain_pair domain ++ pairs)
        ≡ decode_external_json unmarshal (text "pvn:dns-search-domains") pairs
  unfolding decode_external_json external domain_pair text_beq
  skip_domain unmarshal [] = refl
  skip_domain unmarshal (c ∷ domain) = refl

module _ (wire : Wire) (documented : IsDocumented wire) (refs : Snapshot)
    (consistent : IsConsistent refs) (meta : Metadata) where
  pub decode_subnet-encode_subnet :
      (s : Subnet) (out : Row × External)
      → all is_ascii s.dns_search_domains ≡ true
      → all is_ascii_range s.allocation_pools ≡ true
      → encode_subnet wire refs s ≡ done out
      → decode_subnet wire refs (row_of wire meta out)
        ≡ done (record s {
          dns_nameservers = sort text_lt s.dns_nameservers;
          allocation_pools = sort range_before s.allocation_pools;
        })
  unfolding encode_subnet decode_subnet row_string row_bool column atom_string text_beq
  decode_subnet-encode_subnet s out texts_ascii ranges_ascii h =
      let (v1, w1, e1) = bind-done (encode_reference refs Kind.network false s.network_id) _ h in
      let (v2, w2, e2) = bind-done (encode_unique_string_set s.dns_nameservers) _ e1 in
      let (v3, w3, e3) = bind-done (encode_ip_ranges wire s.allocation_pools) _ e2 in
      let (v4, w4, e4) =
        bind-done
          (encode_external_json wire.marshal_texts (text "pvn:dns-search-domains")
            s.dns_search_domains)
          _ e3 in
      rw
        (
          ← done_inj e4,
          decode_reference-encode_reference refs consistent Kind.network false s.network_id
              (text "network") _ v1 w1 refl,
          row_string_set-encode_unique_string_set s.dns_nameservers (text "dns_nameservers") _ v2 w2
              refl,
          decode_ip_ranges-encode_ip_ranges wire documented s.allocation_pools
              (text "allocation_pools") _ v3 ranges_ascii w3 refl,
          row_string_map-encode_string_map _ (text "external_ids") _ refl,
          skip_domain wire.marshal_texts s.dns_search_domains v4 w4 wire.unmarshal_texts
              s.dns_domain,
          external_domain wire.marshal_texts s.dns_search_domains v4 w4 s.dns_domain,
          decode_external_json-encode_external_json wire.marshal_texts wire.unmarshal_texts
              (text "pvn:dns-search-domains") s.dns_search_domains v4
              (documented.texts_written s.dns_search_domains)
              (documented.texts s.dns_search_domains texts_ascii) w4,
        )
        refl
