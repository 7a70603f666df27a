-- ===== src/Ovsdb/Encode/Networks.antt =====
-- encodeResource: networks, subnets, ports, address allocations, routers and their interfaces.
use proxmox_ovn.Prelude.{true, false, ◌++◌, [], ◌∷◌}
use proxmox_ovn.Text.{Text, text}
use proxmox_ovn.Model.Kind.{Kind}
use proxmox_ovn.Model.Resource.{Network, Subnet, Port, IpAllocation, Router, RouterInterface}
use proxmox_ovn.Ovsdb.Outcome.{Outcome, done, ◌>>=◌}
use proxmox_ovn.Ovsdb.Snapshot.{Snapshot, Wire}
use proxmox_ovn.Ovsdb.Words.{binding_status_text, allocation_state_text}
use proxmox_ovn.Ovsdb.Row.{Row, str, bool, number, atom}
use proxmox_ovn.Ovsdb.Fields.{
  encode_reference, encode_unique_string_set, encode_ip_ranges, encode_fixed_ips,
  encode_reference_set, External, encode_external_json,
}

unfoldable pub domain_pair : Text → External
domain_pair [] = []
domain_pair domain = (text "pvn:dns-domain", domain) ∷ []

unfoldable pub encode_network : Snapshot → Network → Outcome (Row × External)
encode_network refs n = do
  provider_network_id ← encode_reference refs Kind.provider_network true n.provider_network_id
  done (
    (text "name", atom (str n.name))
        ∷ (text "description", atom (str n.description))
        ∷ (text "mtu", atom (number n.mtu))
        ∷ (text "external", atom (bool n.external))
        ∷ (text "provider_network", provider_network_id)
        ∷ [],
    [],
  )

unfoldable pub encode_subnet : Wire → Snapshot → Subnet → Outcome (Row × External)
encode_subnet wire refs s = do
  network_id ← encode_reference refs Kind.network false s.network_id
  dns_nameservers ← encode_unique_string_set s.dns_nameservers
  allocation_pools ← encode_ip_ranges wire s.allocation_pools
  searched ←
      encode_external_json wire.marshal_texts (text "pvn:dns-search-domains") s.dns_search_domains
  done (
    (text "network", network_id)
        ∷ (text "name", atom (str s.name))
        ∷ (text "cidr", atom (str s.cidr))
        ∷ (text "gateway_ip", atom (str s.gateway_ip))
        ∷ (text "enable_dhcp", atom (bool s.enable_dhcp))
        ∷ (text "dns_nameservers", dns_nameservers)
        ∷ (text "allocation_pools", allocation_pools)
        ∷ [],
    domain_pair s.dns_domain ++ searched,
  )

unfoldable pub encode_port : Snapshot → Port → Outcome (Row × External)
encode_port refs p = do
  network_id ← encode_reference refs Kind.network false p.network_id
  fixed_ips ← encode_fixed_ips refs p.fixed_ips
  security_group_ids ← encode_reference_set refs Kind.security_group p.security_group_ids
  node_id ← encode_reference refs Kind.node true p.node_id
  done (
    (text "network", network_id)
        ∷ (text "name", atom (str p.name))
        ∷ (text "mac_address", atom (str p.mac_address))
        ∷ (text "fixed_ips", fixed_ips)
        ∷ (text "security_groups", security_group_ids)
        ∷ (text "admin_state_up", atom (bool p.admin_state_up))
        ∷ (text "binding_status", atom (str (binding_status_text p.binding_status)))
        ∷ (text "node", node_id)
        ∷ (text "vmid", atom (number p.vmid))
        ∷ (text "nic", atom (str p.nic))
        ∷ (text "lsp_name", atom (str p.lsp_name))
        ∷ (text "generation", atom (number p.generation))
        ∷ (text "requested_chassis", atom (str p.requested_chassis))
        ∷ [],
    [],
  )

unfoldable pub encode_ip_allocation : Snapshot → IpAllocation → Outcome (Row × External)
encode_ip_allocation refs i = do
  subnet_id ← encode_reference refs Kind.subnet false i.subnet_id
  port_id ← encode_reference refs Kind.port true i.port_id
  done (
    (text "subnet", subnet_id)
        ∷ (text "port", port_id)
        ∷ (text "address", atom (str i.address))
        ∷ (text "allocation_state", atom (str (allocation_state_text i.allocation_state)))
        ∷ [],
    [],
  )

unfoldable pub encode_router : Wire → Snapshot → Router → Outcome (Row × External)
encode_router wire refs r = do
  external_network_id ← encode_reference refs Kind.network true r.external_network_id
  external_subnet_id ← encode_reference refs Kind.subnet true r.external_subnet_id
  routed ← encode_external_json wire.marshal_routes (text "pvn:static-routes") r.static_routes
  done (
    (text "name", atom (str r.name))
        ∷ (text "description", atom (str r.description))
        ∷ (text "external_network", external_network_id)
        ∷ (text "external_subnet", external_subnet_id)
        ∷ (text "external_ip_address", atom (str r.external_ip_address))
        ∷ (text "enable_snat", atom (bool r.enable_snat))
        ∷ [],
    routed,
  )

unfoldable pub encode_router_interface : Snapshot → RouterInterface → Outcome (Row × External)
encode_router_interface refs r = do
  router_id ← encode_reference refs Kind.router false r.router_id
  subnet_id ← encode_reference refs Kind.subnet false r.subnet_id
  port_id ← encode_reference refs Kind.port true r.port_id
  done ((text "router", router_id) ∷ (text "subnet", subnet_id) ∷ (text "port", port_id) ∷ [], [])
