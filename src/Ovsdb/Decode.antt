-- ===== src/Ovsdb/Decode.antt =====
-- decodeResource of internal/ovsdbstore/codec.go. The first error is reported; all errors of the
-- decoder are alike.
mod Networks
mod Policy
unfoldable pub use Networks.{
  decode_network, decode_subnet, decode_port, decode_ip_allocation, decode_router,
  decode_router_interface,
}
unfoldable pub use Policy.{
  decode_floating_ip, decode_provider_network, decode_provider_segment, decode_security_group,
  decode_security_group_rule, decode_node, decode_operation,
}
use proxmox_ovn.Prelude.{Bool, true, false, ◌++◌, List, [], ◌∷◌, map, if◌then◌else◌}
use proxmox_ovn.Text.{Text, text, is_empty}
use proxmox_ovn.Model.Kind.{Kind}
use proxmox_ovn.Model.Resource.{
  Resource, Body, Network, Subnet, Port, IpAllocation, Router, RouterInterface, FloatingIp,
  ProviderNetwork, ProviderSegment, SecurityGroup, SecurityGroupRule, Node, Operation, network,
  subnet, port, ip_allocation, router, router_interface, floating_ip, provider_network,
  provider_segment, security_group, security_group_rule, node, operation,
}
use proxmox_ovn.Ovsdb.Outcome.{Outcome, done, failed, ◌>>=◌, ◌>>◌}
use proxmox_ovn.Ovsdb.Snapshot.{Snapshot, Wire}
use proxmox_ovn.Ovsdb.Words.{
  binding_status_of, allocation_state_of, floating_status_of, network_type_of, direction_of,
  ethertype_of, action_of, role_of, operation_status_of, target_kind_of,
}
use proxmox_ovn.Ovsdb.Row.{
  Row, row_string, row_bool, row_int64, row_string_set, row_string_map, row_optional_time,
}
use proxmox_ovn.Ovsdb.Fields.{
  decode_reference, decode_ip_ranges, decode_fixed_ips, decode_reference_set, External, external,
  decode_external_json, decode_operation_payload, decode_metadata,
}

-- The switch of decodeResource.
unfoldable pub decode_body : Wire → Snapshot → Kind → Row → Outcome Body
decode_body wire refs Kind.network row = decode_network refs row >>= λ b. done (network b)
decode_body wire refs Kind.subnet row = decode_subnet wire refs row >>= λ b. done (subnet b)
decode_body wire refs Kind.port row = decode_port refs row >>= λ b. done (port b)
decode_body wire refs Kind.ip_allocation row =
    decode_ip_allocation refs row >>= λ b. done (ip_allocation b)
decode_body wire refs Kind.router row = decode_router wire refs row >>= λ b. done (router b)
decode_body wire refs Kind.router_interface row =
    decode_router_interface refs row >>= λ b. done (router_interface b)
decode_body wire refs Kind.floating_ip row =
    decode_floating_ip refs row >>= λ b. done (floating_ip b)
decode_body wire refs Kind.provider_network row =
    decode_provider_network refs row >>= λ b. done (provider_network b)
decode_body wire refs Kind.provider_segment row =
    decode_provider_segment refs row >>= λ b. done (provider_segment b)
decode_body wire refs Kind.security_group row =
    decode_security_group row >>= λ b. done (security_group b)
decode_body wire refs Kind.security_group_rule row =
    decode_security_group_rule refs row >>= λ b. done (security_group_rule b)
decode_body wire refs Kind.node row = decode_node wire row >>= λ b. done (node b)
decode_body wire refs Kind.operation row = decode_operation wire row >>= λ b. done (operation b)

-- decodeResource
unfoldable pub decode_resource : Wire → Snapshot → Kind → Row → Outcome Resource
decode_resource wire refs kind row = do
  meta ← decode_metadata wire row
  body ← decode_body wire refs kind row
  done (record { meta = meta; body = body })
