-- ===== src/Ovsdb/Encode/Policy.antt =====
-- encodeResource: floating IPs, provider networks, security groups, nodes and operations.
use proxmox_ovn.Prelude.{true, false, [], ◌∷◌, map}
use proxmox_ovn.Text.{text}
use proxmox_ovn.Model.Kind.{Kind}
use proxmox_ovn.Model.Resource.{
  FloatingIp, ProviderNetwork, ProviderSegment, SecurityGroup, SecurityGroupRule, Node, Operation,
}
use proxmox_ovn.Ovsdb.Outcome.{Outcome, done, ◌>>=◌}
use proxmox_ovn.Ovsdb.Snapshot.{Snapshot, Wire}
use proxmox_ovn.Ovsdb.Words.{
  floating_status_text, network_type_text, direction_text, ethertype_text, action_text, role_text,
  operation_status_text, target_kind_text,
}
use proxmox_ovn.Ovsdb.Row.{Row, str, bool, number, atom}
use proxmox_ovn.Ovsdb.Fields.{
  encode_reference, encode_string_set, External, encode_operation_payload, encode_optional_time,
}

unfoldable pub encode_floating_ip : Snapshot → FloatingIp → Outcome (Row × External)
encode_floating_ip refs f = do
  provider_network_id ← encode_reference refs Kind.provider_network false f.provider_network_id
  port_id ← encode_reference refs Kind.port true f.port_id
  router_id ← encode_reference refs Kind.router true f.router_id
  done (
    (text "provider_network", provider_network_id)
        ∷ (text "address", atom (str f.address))
        ∷ (text "port", port_id)
        ∷ (text "fixed_ip_address", atom (str f.fixed_ip_address))
        ∷ (text "router", router_id)
        ∷ (text "floating_status", atom (str (floating_status_text f.floating_status)))
        ∷ [],
    [],
  )

unfoldable pub encode_provider_network : Snapshot → ProviderNetwork → Outcome (Row × External)
encode_provider_network refs p = do
  default_segment_id ← encode_reference refs Kind.provider_segment true p.default_segment_id
  done (
    (text "name", atom (str p.name))
        ∷ (text "description", atom (str p.description))
        ∷ (text "default_segment", default_segment_id)
        ∷ [],
    [],
  )

unfoldable pub encode_provider_segment : Snapshot → ProviderSegment → Outcome (Row × External)
encode_provider_segment refs p = do
  provider_network_id ← encode_reference refs Kind.provider_network false p.provider_network_id
  done (
    (text "provider_network", provider_network_id)
        ∷ (text "name", atom (str p.name))
        ∷ (text "physical_network", atom (str p.physical_network))
        ∷ (text "network_type", atom (str (network_type_text p.network_type)))
        ∷ (text "vlan_id", atom (number p.vlan_id))
        ∷ [],
    [],
  )

unfoldable pub encode_security_group : SecurityGroup → Outcome (Row × External)
encode_security_group s = done (
  (text "name", atom (str s.name))
      ∷ (text "description", atom (str s.description))
      ∷ (text "stateful", atom (bool s.stateful))
      ∷ [],
  [],
)

unfoldable pub encode_security_group_rule : Snapshot → SecurityGroupRule → Outcome (Row × External)
encode_security_group_rule refs s = do
  security_group_id ← encode_reference refs Kind.security_group false s.security_group_id
  remote_group_id ← encode_reference refs Kind.security_group true s.remote_group_id
  done (
    (text "security_group", security_group_id)
        ∷ (text "direction", atom (str (direction_text s.direction)))
        ∷ (text "ethertype", atom (str (ethertype_text s.ethertype)))
        ∷ (text "protocol", atom (str s.protocol))
        ∷ (text "port_range_min", atom (number s.port_range_min))
        ∷ (text "port_range_max", atom (number s.port_range_max))
        ∷ (text "remote_cidr", atom (str s.remote_cidr))
        ∷ (text "remote_group", remote_group_id)
        ∷ (text "action", atom (str (action_text s.action)))
        ∷ (text "description", atom (str s.description))
        ∷ [],
    [],
  )

unfoldable pub encode_node : Wire → Node → Outcome (Row × External)
encode_node wire n = done (
  (text "name", atom (str n.name))
      ∷ (text "chassis_id", atom (str n.chassis_id))
      ∷ (text "management_address", atom (str n.management_address))
      ∷ (text "roles", encode_string_set (map role_text n.roles))
      ∷ (text "enabled", atom (bool n.enabled))
      ∷ (text "last_seen_at", atom (str (encode_optional_time wire n.last_seen_at)))
      ∷ [],
  [],
)

unfoldable pub encode_operation : Wire → Operation → Outcome (Row × External)
encode_operation wire o = do
  carried ← encode_operation_payload wire o.payload
  done (
    (text "action", atom (str o.action))
        ∷ (text "target_kind", atom (str (target_kind_text o.target_kind)))
        ∷ (text "target_id", atom (str o.target_id))
        ∷ (text "target_revision", atom (number o.target_revision))
        ∷ (text "operation_status", atom (str (operation_status_text o.operation_status)))
        ∷ (text "idempotency_key", atom (str o.idempotency_key))
        ∷ (text "error", atom (str o.error))
        ∷ (text "lease_owner", atom (str o.lease_owner))
        ∷ (text "started_at", atom (str (encode_optional_time wire o.started_at)))
        ∷ (text "completed_at", atom (str (encode_optional_time wire o.completed_at)))
        ∷ [],
    carried,
  )
