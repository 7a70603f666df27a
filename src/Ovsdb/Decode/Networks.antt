-- ===== src/Ovsdb/Decode/Networks.antt =====
-- decodeResource: networks, subnets, ports, address allocations, routers and their interfaces.
use proxmox_ovn.Prelude.{true, false}
use proxmox_ovn.Text.{text}
use proxmox_ovn.Model.Kind.{Kind}
use proxmox_ovn.Model.Resource.{Network, Subnet, Port, IpAllocation, Router, RouterInterface}
use proxmox_ovn.Ovsdb.Outcome.{Outcome, done, ◌>>=◌}
use proxmox_ovn.Ovsdb.Snapshot.{Snapshot, Wire}
use proxmox_ovn.Ovsdb.Words.{binding_status_of, allocation_state_of}
use proxmox_ovn.Ovsdb.Row.{Row, row_string, row_bool, row_int64, row_string_set, row_string_map}
use proxmox_ovn.Ovsdb.Fields.{
  decode_reference, decode_ip_ranges, decode_fixed_ips, decode_reference_set, external,
  decode_external_json,
}

unfoldable pub decode_network : Snapshot → Row → Outcome Network
decode_network refs row = do
  name ← row_string (text "name") row
  description ← row_string (text "description") row
  mtu ← row_int64 (text "mtu") row
  external ← row_bool (text "external") row
  provider_network_id ←
      decode_reference refs Kind.provider_network true (text "provider_network") row
  done (record {
    name = name;
    description = description;
    mtu = mtu;
    external = external;
    provider_network_id = provider_network_id;
  })

unfoldable pub decode_subnet : Wire → Snapshot → Row → Outcome Subnet
decode_subnet wire refs row = do
  network_id ← decode_reference refs Kind.network false (text "network") row
  name ← row_string (text "name") row
  cidr ← row_string (text "cidr") row
  gateway_ip ← row_string (text "gateway_ip") row
  enable_dhcp ← row_bool (text "enable_dhcp") row
  dns_nameservers ← row_string_set (text "dns_nameservers") row
  allocation_pools ← decode_ip_ranges wire (text "allocation_pools") row
  pairs ← row_string_map (text "external_ids") row
  dns_search_domains ←
      decode_external_json wire.unmarshal_texts (text "pvn:dns-search-domains") pairs
  done (record {
    network_id = network_id;
    name = name;
    cidr = cidr;
    gateway_ip = gateway_ip;
    enable_dhcp = enable_dhcp;
    dns_nameservers = dns_nameservers;
    allocation_pools = allocation_pools;
    dns_domain = external (text "pvn:dns-domain") pairs;
    dns_search_domains = dns_search_domains;
  })

unfoldable pub decode_port : Snapshot → Row → Outcome Port
decode_port refs row = do
  network_id ← decode_reference refs Kind.network false (text "network") row
  name ← row_string (text "name") row
  mac_address ← row_string (text "mac_address") row
  fixed_ips ← decode_fixed_ips refs row
  security_group_ids ← decode_reference_set refs Kind.security_group (text "security_groups") row
  admin_state_up ← row_bool (text "admin_state_up") row
  binding_status_name ← row_string (text "binding_status") row
  node_id ← decode_reference refs Kind.node true (text "node") row
  vmid ← row_int64 (text "vmid") row
  nic ← row_string (text "nic") row
  lsp_name ← row_string (text "lsp_name") row
  generation ← row_int64 (text "generation") row
  requested_chassis ← row_string (text "requested_chassis") row
  done (record {
    network_id = network_id;
    name = name;
    mac_address = mac_address;
    fixed_ips = fixed_ips;
    security_group_ids = security_group_ids;
    admin_state_up = admin_state_up;
    binding_status = binding_status_of binding_status_name;
    node_id = node_id;
    vmid = vmid;
    nic = nic;
    lsp_name = lsp_name;
    generation = generation;
    requested_chassis = requested_chassis;
  })

unfoldable pub decode_ip_allocation : Snapshot → Row → Outcome IpAllocation
decode_ip_allocation refs row = do
  subnet_id ← decode_reference refs Kind.subnet false (text "subnet") row
  port_id ← decode_reference refs Kind.port true (text "port") row
  address ← row_string (text "address") row
  allocation_state_name ← row_string (text "allocation_state") row
  done (record {
    subnet_id = subnet_id;
    port_id = port_id;
    address = address;
    allocation_state = allocation_state_of allocation_state_name;
  })

unfoldable pub decode_router : Wire → Snapshot → Row → Outcome Router
decode_router wire refs row = do
  name ← row_string (text "name") row
  description ← row_string (text "description") row
  external_network_id ← decode_reference refs Kind.network true (text "external_network") row
  external_subnet_id ← decode_reference refs Kind.subnet true (text "external_subnet") row
  external_ip_address ← row_string (text "external_ip_address") row
  enable_snat ← row_bool (text "enable_snat") row
  pairs ← row_string_map (text "external_ids") row
  static_routes ← decode_external_json wire.unmarshal_routes (text "pvn:static-routes") pairs
  done (record {
    name = name;
    description = description;
    external_network_id = external_network_id;
    external_subnet_id = external_subnet_id;
    external_ip_address = external_ip_address;
    enable_snat = enable_snat;
    static_routes = static_routes;
  })

unfoldable pub decode_router_interface : Snapshot → Row → Outcome RouterInterface
decode_router_interface refs row = do
  router_id ← decode_reference refs Kind.router false (text "router") row
  subnet_id ← decode_reference refs Kind.subnet false (text "subnet") row
  port_id ← decode_reference refs Kind.port true (text "port") row
  done (record { router_id = router_id; subnet_id = subnet_id; port_id = port_id })
