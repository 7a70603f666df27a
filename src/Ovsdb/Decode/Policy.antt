-- ===== src/Ovsdb/Decode/Policy.antt =====
-- decodeResource: floating IPs, provider networks, security groups, nodes and operations.
use proxmox_ovn.Prelude.{true, false, map}
use proxmox_ovn.Text.{text}
use proxmox_ovn.Model.Kind.{Kind}
use proxmox_ovn.Model.Resource.{
  FloatingIp, ProviderNetwork, ProviderSegment, SecurityGroup, SecurityGroupRule, Node, Operation,
}
use proxmox_ovn.Ovsdb.Outcome.{Outcome, done, ◌>>=◌}
use proxmox_ovn.Ovsdb.Snapshot.{Snapshot, Wire}
use proxmox_ovn.Ovsdb.Words.{
  floating_status_of, network_type_of, direction_of, ethertype_of, action_of, role_of,
  operation_status_of, target_kind_of,
}
use proxmox_ovn.Ovsdb.Row.{
  Row, row_string, row_bool, row_int64, row_string_set, row_string_map, row_optional_time,
}
use proxmox_ovn.Ovsdb.Fields.{decode_reference, decode_operation_payload}

unfoldable pub decode_floating_ip : Snapshot → Row → Outcome FloatingIp
decode_floating_ip refs row = do
  provider_network_id ←
      decode_reference refs Kind.provider_network false (text "provider_network") row
  address ← row_string (text "address") row
  port_id ← decode_reference refs Kind.port true (text "port") row
  fixed_ip_address ← row_string (text "fixed_ip_address") row
  router_id ← decode_reference refs Kind.router true (text "router") row
  floating_status_name ← row_string (text "floating_status") row
  done (record {
    provider_network_id = provider_network_id;
    address = address;
    port_id = port_id;
    fixed_ip_address = fixed_ip_address;
    router_id = router_id;
    floating_status = floating_status_of floating_status_name;
  })

unfoldable pub decode_provider_network : Snapshot → Row → Outcome ProviderNetwork
decode_provider_network refs row = do
  name ← row_string (text "name") row
  description ← row_string (text "description") row
  default_segment_id ← decode_reference refs Kind.provider_segment true (text "default_segment") row
  done (record { name = name; description = description; default_segment_id = default_segment_id })

unfoldable pub decode_provider_segment : Snapshot → Row → Outcome ProviderSegment
decode_provider_segment refs row = do
  provider_network_id ←
      decode_reference refs Kind.provider_network false (text "provider_network") row
  name ← row_string (text "name") row
  physical_network ← row_string (text "physical_network") row
  network_type_name ← row_string (text "network_type") row
  vlan_id ← row_int64 (text "vlan_id") row
  done (record {
    provider_network_id = provider_network_id;
    name = name;
    physical_network = physical_network;
    network_type = network_type_of network_type_name;
    vlan_id = vlan_id;
  })

unfoldable pub decode_security_group : Row → Outcome SecurityGroup
decode_security_group row = do
  name ← row_string (text "name") row
  description ← row_string (text "description") row
  stateful ← row_bool (text "stateful") row
  done (record { name = name; description = description; stateful = stateful })

unfoldable pub decode_security_group_rule : Snapshot → Row → Outcome SecurityGroupRule
decode_security_group_rule refs row = do
  security_group_id ← decode_reference refs Kind.security_group false (text "security_group") row
  direction_name ← row_string (text "direction") row
  ethertype_name ← row_string (text "ethertype") row
  protocol ← row_string (text "protocol") row
  port_range_min ← row_int64 (text "port_range_min") row
  port_range_max ← row_int64 (text "port_range_max") row
  remote_cidr ← row_string (text "remote_cidr") row
  remote_group_id ← decode_reference refs Kind.security_group true (text "remote_group") row
  action_name ← row_string (text "action") row
  description ← row_string (text "description") row
  done (record {
    security_group_id = security_group_id;
    direction = direction_of direction_name;
    ethertype = ethertype_of ethertype_name;
    protocol = protocol;
    port_range_min = port_range_min;
    port_range_max = port_range_max;
    remote_cidr = remote_cidr;
    remote_group_id = remote_group_id;
    action = action_of action_name;
    description = description;
  })

unfoldable pub decode_node : Wire → Row → Outcome Node
decode_node wire row = do
  name ← row_string (text "name") row
  chassis_id ← row_string (text "chassis_id") row
  management_address ← row_string (text "management_address") row
  role_names ← row_string_set (text "roles") row
  enabled ← row_bool (text "enabled") row
  last_seen_at ← row_optional_time wire.parse_time (text "last_seen_at") row
  done (record {
    name = name;
    chassis_id = chassis_id;
    management_address = management_address;
    roles = map role_of role_names;
    enabled = enabled;
    last_seen_at = last_seen_at;
  })

unfoldable pub decode_operation : Wire → Row → Outcome Operation
decode_operation wire row = do
  action ← row_string (text "action") row
  target_kind_name ← row_string (text "target_kind") row
  target_id ← row_string (text "target_id") row
  target_revision ← row_int64 (text "target_revision") row
  operation_status_name ← row_string (text "operation_status") row
  idempotency_key ← row_string (text "idempotency_key") row
  error ← row_string (text "error") row
  lease_owner ← row_string (text "lease_owner") row
  started_at ← row_optional_time wire.parse_time (text "started_at") row
  completed_at ← row_optional_time wire.parse_time (text "completed_at") row
  pairs ← row_string_map (text "external_ids") row
  payload ← decode_operation_payload wire pairs
  done (record {
    action = action;
    target_kind = target_kind_of target_kind_name;
    target_id = target_id;
    target_revision = target_revision;
    operation_status = operation_status_of operation_status_name;
    idempotency_key = idempotency_key;
    error = error;
    lease_owner = lease_owner;
    started_at = started_at;
    completed_at = completed_at;
    payload = payload;
  })
