-- ===== src/Model/Validation/Address.antt =====
-- validateNetwork, validateSubnet, validateRouter, validateRouterInterface, validateIPAllocation,
-- validateFloatingIP, validateProviderNetwork and validateProviderSegment.
use proxmox_ovn.Prelude.{
  ℕ, ◌^◌, ◌/◌, Bool, true, false, not, ◌&&◌, ◌||◌, List, [], ◌∷◌, ℤ, pos, ltb, nat_beq, ◌==◌,
  int_eq, length, any, if◌then◌else◌,
}
use proxmox_ovn.Text.{Text, text, text_eq, is_empty, trim_suffix, to_lower}
use proxmox_ovn.Netip.{Prefix, parse_addr, parse_prefix, masked, contains}
use proxmox_ovn.Result.{Check, ok, err, invalid, ◌>>=◌, ◌>>◌, guard, refuse, or_fail, each}
use proxmox_ovn.Model.Resource.{
  Network, Subnet, IpRange, Router, StaticRoute, RouterInterface, IpAllocation, IpAllocationState,
  FloatingIp, FloatingIpStatus, ProviderNetwork, ProviderSegment, ProviderNetworkType,
}
use proxmox_ovn.Model.Ip.{effective_ipv4_gateway}
use proxmox_ovn.Model.Validation.{
  validate_name, required, validate_dns_domain, outside, unless_empty, parses,
}

unfoldable pub validate_network : Network → Check
validate_network n = do
  validate_name (text "name") n.name
  refuse (not (n.mtu == pos 0) && outside (pos 576) (pos 9216) n.mtu) (invalid (text "mtu"))
  refuse (n.external && is_empty n.provider_network_id) (invalid (text "provider_network_id"))

-- The loop over the name servers: `seen` holds the addresses so far.
validate_nameservers : List ℕ → List Text → Check
validate_nameservers seen [] = ok tt
validate_nameservers seen (server ∷ servers) = do
  addr ← or_fail (parse_addr server) (invalid (text "dns_nameservers"))
  refuse (any (λ other. nat_beq other addr) seen) (invalid (text "dns_nameservers"))
  validate_nameservers (addr ∷ seen) servers

validate_search_domains : List Text → List Text → Check
validate_search_domains seen [] = ok tt
validate_search_domains seen (domain ∷ domains) = do
  validate_dns_domain (text "dns_search_domains") domain
  let key = to_lower (trim_suffix b'.' domain)
  refuse (any (λ other. other == key) seen) (invalid (text "dns_search_domains"))
  validate_search_domains (key ∷ seen) domains

validate_pool : Prefix → IpRange → Check
validate_pool prefix pool = do
  start ← or_fail (parse_addr pool.start) (invalid (text "allocation_pools"))
  end ← or_fail (parse_addr pool.end) (invalid (text "allocation_pools"))
  refuse (not (contains prefix start) || not (contains prefix end) || ltb end start)
      (invalid (text "allocation_pools"))

unfoldable pub validate_subnet : Subnet → Check
unfolding validate_nameservers validate_search_domains validate_pool
validate_subnet s = do
  required (text "network_id") s.network_id
  validate_name (text "name") s.name
  prefix ← or_fail (parse_prefix s.cidr) (invalid (text "cidr"))
  parses (effective_ipv4_gateway s) (invalid (text "gateway_ip"))
  refuse (ltb 6 (length s.dns_nameservers)) (invalid (text "dns_nameservers"))
  validate_nameservers [] s.dns_nameservers
  unless_empty s.dns_domain (validate_dns_domain (text "dns_domain") s.dns_domain)
  refuse (ltb 6 (length s.dns_search_domains)) (invalid (text "dns_search_domains"))
  validate_search_domains [] s.dns_search_domains
  each (validate_pool (masked prefix)) s.allocation_pools

-- The loop over the static routes: `previous` holds the routes so far. An address is multicast
-- from 224.0.0.0 to 239.255.255.255.
validate_routes : List StaticRoute → List StaticRoute → Check
validate_routes previous [] = ok tt
validate_routes previous (route ∷ routes) = do
  prefix ← or_fail (parse_prefix route.destination) (invalid (text "static_routes.destination"))
  guard (nat_beq prefix.addr (masked prefix).addr) (invalid (text "static_routes.destination"))
  next_hop ← or_fail (parse_addr route.next_hop) (invalid (text "static_routes.next_hop"))
  refuse (nat_beq next_hop 0 || nat_beq (next_hop / 2 ^ 28) 14)
      (invalid (text "static_routes.next_hop"))
  refuse
      (any (λ (r : StaticRoute). r.destination == route.destination && r.next_hop == route.next_hop)
        previous)
      (invalid (text "static_routes"))
  validate_routes (route ∷ previous) routes

unfoldable pub validate_router : Router → Check
unfolding validate_routes
validate_router r = do
  validate_name (text "name") r.name
  refuse (ltb 64 (length r.static_routes)) (invalid (text "static_routes"))
  validate_routes [] r.static_routes
  if is_empty r.external_network_id
      then guard (is_empty r.external_subnet_id && is_empty r.external_ip_address)
          (invalid (text "external_network_id"))
      else (do
        required (text "external_subnet_id") r.external_subnet_id
        parses (parse_addr r.external_ip_address) (invalid (text "external_ip_address")))

unfoldable pub validate_router_interface : RouterInterface → Check
validate_router_interface r = do
  required (text "router_id") r.router_id
  required (text "subnet_id") r.subnet_id

is_reserved : IpAllocationState → Bool
is_reserved IpAllocationState.reserved = true
is_reserved _ = false

is_allocated : IpAllocationState → Bool
is_allocated IpAllocationState.allocated = true
is_allocated _ = false

unfoldable pub validate_ip_allocation : IpAllocation → Check
unfolding is_reserved is_allocated
validate_ip_allocation a = do
  required (text "subnet_id") a.subnet_id
  parses (parse_addr a.address) (invalid (text "address"))
  guard (is_reserved a.allocation_state || is_allocated a.allocation_state)
      (invalid (text "allocation_state"))
  refuse (is_allocated a.allocation_state && is_empty a.port_id) (invalid (text "port_id"))

unfoldable pub known_floating_status : FloatingIpStatus → Bool
known_floating_status (FloatingIpStatus.other _) = false
known_floating_status _ = true

unfoldable pub validate_floating_ip : FloatingIp → Check
unfolding known_floating_status
validate_floating_ip f = do
  required (text "provider_network_id") f.provider_network_id
  parses (parse_addr f.address) (invalid (text "address"))
  unless_empty f.fixed_ip_address
      (parses (parse_addr f.fixed_ip_address) (invalid (text "fixed_ip_address")))
  guard (known_floating_status f.floating_status) (invalid (text "status"))

unfoldable pub validate_provider_network : ProviderNetwork → Check
validate_provider_network p = validate_name (text "name") p.name

validate_vlan : ProviderNetworkType → ℤ → Check
validate_vlan ProviderNetworkType.flat vlan_id = guard (vlan_id == pos 0) (invalid (text "vlan_id"))
validate_vlan ProviderNetworkType.vlan vlan_id =
    refuse (outside (pos 1) (pos 4094) vlan_id) (invalid (text "vlan_id"))
validate_vlan (ProviderNetworkType.other _) vlan_id = err (invalid (text "network_type"))

unfoldable pub validate_provider_segment : ProviderSegment → Check
unfolding validate_vlan
validate_provider_segment p = do
  required (text "provider_network_id") p.provider_network_id
  validate_name (text "name") p.name
  validate_name (text "physical_network") p.physical_network
  validate_vlan p.network_type p.vlan_id
