-- ===== src/Ovsdb/Encode.antt =====
-- encodeResource of internal/ovsdbstore/codec.go. The columns that cannot fail are written last.
mod Networks
mod Policy
unfoldable pub use Networks.{
  domain_pair, encode_network, encode_subnet, encode_port, encode_ip_allocation, encode_router,
  encode_router_interface,
}
unfoldable pub use Policy.{
  encode_floating_ip, encode_provider_network, encode_provider_segment, encode_security_group,
  encode_security_group_rule, encode_node, encode_operation,
}
use proxmox_ovn.Prelude.{true, false, ◌++◌, [], ◌∷◌, map}
use proxmox_ovn.Text.{Text, text}
use proxmox_ovn.Model.Kind.{Kind}
use proxmox_ovn.Model.Resource.{
  Metadata, Resource, Body, Network, Subnet, Port, IpAllocation, Router, RouterInterface,
  FloatingIp, ProviderNetwork, ProviderSegment, SecurityGroup, SecurityGroupRule, Node, Operation,
  network, subnet, port, ip_allocation, router, router_interface, floating_ip, provider_network,
  provider_segment, security_group, security_group_rule, node, operation,
}
use proxmox_ovn.Ovsdb.Outcome.{Outcome, done, ◌>>=◌}
use proxmox_ovn.Ovsdb.Snapshot.{Snapshot, Wire}
use proxmox_ovn.Ovsdb.Words.{
  binding_status_text, allocation_state_text, floating_status_text, network_type_text,
  direction_text, ethertype_text, action_text, role_text, operation_status_text, target_kind_text,
}
use proxmox_ovn.Ovsdb.Row.{Row, str, bool, number, atom}
use proxmox_ovn.Ovsdb.Fields.{
  encode_reference, encode_string_set, encode_unique_string_set, encode_ip_ranges, encode_fixed_ips,
  encode_reference_set, External, encode_string_map, encode_external_json, encode_operation_payload,
  encode_optional_time, encode_metadata, metadata_columns,
}

-- The switch of encodeResource: the columns of the kind, and its external ids.
unfoldable pub encode_body : Wire → Snapshot → Body → Outcome (Row × External)
encode_body wire refs (network b) = encode_network refs b
encode_body wire refs (subnet b) = encode_subnet wire refs b
encode_body wire refs (port b) = encode_port refs b
encode_body wire refs (ip_allocation b) = encode_ip_allocation refs b
encode_body wire refs (router b) = encode_router wire refs b
encode_body wire refs (router_interface b) = encode_router_interface refs b
encode_body wire refs (floating_ip b) = encode_floating_ip refs b
encode_body wire refs (provider_network b) = encode_provider_network refs b
encode_body wire refs (provider_segment b) = encode_provider_segment refs b
encode_body wire refs (security_group b) = encode_security_group b
encode_body wire refs (security_group_rule b) = encode_security_group_rule refs b
encode_body wire refs (node b) = encode_node wire b
encode_body wire refs (operation b) = encode_operation wire b

-- The row of what a kind writes, its external ids last.
abbrev pub row_of : Wire → Metadata → Row × External → Row
row_of wire meta (fields, pairs) =
    metadata_columns wire meta ++ fields ++ ((text "external_ids", encode_string_map pairs) ∷ [])

-- encodeResource
unfoldable pub encode_resource : Wire → Snapshot → Resource → Outcome Row
encode_resource wire refs resource = do
  columns ← encode_metadata wire resource.meta
  (fields, pairs) ← encode_body wire refs resource.body
  done (columns ++ fields ++ ((text "external_ids", encode_string_map pairs) ∷ []))
