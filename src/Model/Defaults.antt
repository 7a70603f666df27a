-- ===== src/Model/Defaults.antt =====
-- SetDefaults, MarkPending and MarkReconciled.
use proxmox_ovn.Prelude.{
  Bool, true, not, ◌&&◌, ◌++◌, map, pos, ◌==◌, int_eq, if◌then◌else◌, Option, none, some,
}
use proxmox_ovn.Text.{Text, text, is_empty, trim_space, trim_suffix, to_lower}
use proxmox_ovn.Netip.{parse_addr, parse_prefix, masked, addr_string, prefix_string}
use proxmox_ovn.Platform.{Platform}
use proxmox_ovn.Model.Patterns.{parse_mac, mac_string}
use proxmox_ovn.Model.Resource.{
  Resource, ResourceState, PortBindingStatus, StaticRoute, IpAllocationState, FloatingIpStatus,
  EtherType, RuleAction, OperationStatus, Body, network, subnet, port, ip_allocation, router,
  router_interface, floating_ip, provider_network, provider_segment, security_group,
  security_group_rule, node, operation,
}

-- normalizeDNSDomain
unfoldable pub normalize_dns_domain : Text → Text
normalize_dns_domain value = to_lower (trim_suffix b'.' (trim_space value))

or_keep : Option Text → Text → Text
or_keep none value = value
or_keep (some value) _ = value

-- if address, err := netip.ParseAddr(s); err == nil { s = address.String() }
canonical_addr : Platform → Text → Text
unfolding or_keep
canonical_addr platform s = elim (parse_addr s) [
  | some a ↦ addr_string a
  | none ↦ or_keep (platform.ipv6_addr_string s) s
]

canonical_destination : Platform → Text → Text
unfolding or_keep
canonical_destination platform s = elim (parse_prefix s) [
  | some p ↦ prefix_string (masked p)
  | none ↦ or_keep (platform.ipv6_prefix_string s) s
]

canonical_mac : Text → Text
canonical_mac s = elim (parse_mac s) [ some octets ↦ to_lower (mac_string octets) | none ↦ s ]

default_binding : PortBindingStatus → PortBindingStatus
default_binding PortBindingStatus.unset = PortBindingStatus.unbound
default_binding status = status

default_allocation : IpAllocationState → IpAllocationState
default_allocation IpAllocationState.unset = IpAllocationState.reserved
default_allocation state = state

default_floating : FloatingIpStatus → FloatingIpStatus
default_floating FloatingIpStatus.unset = FloatingIpStatus.down
default_floating status = status

default_ethertype : EtherType → EtherType
default_ethertype EtherType.unset = EtherType.ipv4
default_ethertype ethertype = ethertype

default_action : RuleAction → RuleAction
default_action RuleAction.unset = RuleAction.allow
default_action action = action

default_operation : OperationStatus → OperationStatus
default_operation OperationStatus.unset = OperationStatus.queued
default_operation status = status

default_state : ResourceState → ResourceState
default_state ResourceState.unset = ResourceState.pending
default_state state = state

-- The switch of SetDefaults; a port's logical switch port is named after its id.
unfoldable pub default_body : Platform → Text → Body → Body
unfolding canonical_addr canonical_destination canonical_mac default_binding default_allocation
    default_floating default_ethertype default_action default_operation
default_body platform id (network n) =
    network (if n.mtu == pos 0 then record n { mtu = pos 1400 } else n)
default_body platform id (subnet s) = subnet (record s {
  dns_domain = normalize_dns_domain s.dns_domain;
  dns_search_domains = map normalize_dns_domain s.dns_search_domains;
  dns_nameservers = map (canonical_addr platform) s.dns_nameservers;
})
default_body platform id (router r) = router (record r {
  static_routes =
      map
        (λ (route : StaticRoute). record route {
          destination = canonical_destination platform route.destination;
          next_hop = canonical_addr platform route.next_hop;
        })
        r.static_routes;
})
default_body platform id (port p) = port (record p {
  mac_address = canonical_mac p.mac_address;
  binding_status = default_binding p.binding_status;
  generation = if p.generation == pos 0 then pos 1 else p.generation;
  lsp_name = if is_empty p.lsp_name && not (is_empty id) then text "pvn-" ++ id else p.lsp_name;
})
default_body platform id (ip_allocation a) =
    ip_allocation (record a { allocation_state = default_allocation a.allocation_state })
default_body platform id (floating_ip f) =
    floating_ip (record f { floating_status = default_floating f.floating_status })
default_body platform id (security_group s) = security_group (record s { stateful = true })
default_body platform id (security_group_rule r) =
    security_group_rule
      (record r { ethertype = default_ethertype r.ethertype; action = default_action r.action })
default_body platform id (operation o) =
    operation (record o { operation_status = default_operation o.operation_status })
default_body platform id (router_interface r) = router_interface r
default_body platform id (provider_network p) = provider_network p
default_body platform id (provider_segment p) = provider_segment p
default_body platform id (node n) = node n

-- SetDefaults
unfoldable pub set_defaults : Platform → Resource → Resource
unfolding default_body default_state
set_defaults platform r = record {
  meta = record r.meta { state = default_state r.meta.state };
  body = default_body platform r.meta.id r.body;
}

-- FloatingIP.MarkPending, where the resource is a floating IP
unfoldable pub mark_pending : Body → Body
mark_pending (floating_ip f) = floating_ip (record f { floating_status = FloatingIpStatus.down })
mark_pending body = body

-- FloatingIP.MarkReconciled, where the resource is a floating IP; `failed` is renderErr != nil
unfoldable pub mark_floating_reconciled : Bool → Body → Body
mark_floating_reconciled failed (floating_ip f) = floating_ip (record f {
  floating_status =
      if failed
      then FloatingIpStatus.error
      else if not (is_empty f.router_id)
          && not (is_empty f.port_id)
          && not (is_empty f.fixed_ip_address)
      then FloatingIpStatus.active
      else FloatingIpStatus.down;
})
mark_floating_reconciled failed body = body
