-- ===== src/Store/References.antt =====
-- validateReferencesLocked and its helpers: what a resource names must be there and fit.
use proxmox_ovn.Prelude.{
  ℕ, ◌+◌, Bool, true, false, not, ◌&&◌, ◌||◌, List, [], ◌∷◌, Option, none, some, any, nat_beq, ltb,
  bool_eq, ◌==◌, if◌then◌else◌,
}
use proxmox_ovn.Text.{Text, text, text_eq, is_empty}
use proxmox_ovn.Netip.{addr_string}
use proxmox_ovn.Result.{Check, ok, conflict, ◌>>=◌, ◌>>◌, guard, refuse, or_fail, each, succeeds}
use proxmox_ovn.Model.Kind.{Kind, kind_eq}
use proxmox_ovn.Model.Ip.{
  effective_ipv4_gateway, valid_ipv4_allocation_address, valid_ipv4_next_hop,
}
use proxmox_ovn.Model.Patterns.{parse_requested_chassis, requested_chassis_contains}
use proxmox_ovn.Model.Validation.{unless_empty}
use proxmox_ovn.Model.Resource.{
  ResourceState, Resource, Network, Subnet, FixedIp, Port, IpAllocation, Router, StaticRoute,
  RouterInterface, FloatingIp, ProviderNetwork, SecurityGroupRule, Node, network, subnet, port,
  ip_allocation, router, router_interface, floating_ip, provider_network, provider_segment,
  security_group, security_group_rule, node, operation,
}
use proxmox_ovn.Store.Table.{
  Table, Row, rows, lookup, cast_found, require, require_network, require_subnet, require_port,
  require_router, require_node, require_segment, network?, subnet?, node?, router_interface?,
}

abbrev pub is_deleting : ResourceState → Bool
is_deleting ResourceState.deleting = true
is_deleting _ = false

-- portHasFixedIP
unfoldable pub port_has_fixed_ip : Port → Text → Text → Bool
port_has_fixed_ip p subnet_id address =
    any (λ (fixed : FixedIp). fixed.subnet_id == subnet_id && fixed.address == address) p.fixed_ips

-- portHasSubnet
unfoldable pub port_has_subnet : Port → Text → Bool
port_has_subnet p subnet_id = any (λ (fixed : FixedIp). fixed.subnet_id == subnet_id) p.fixed_ips

-- portHasAddress
unfoldable pub port_has_address : Port → Text → Bool
port_has_address p address = any (λ (fixed : FixedIp). fixed.address == address) p.fixed_ips

-- hasChassisLocked
unfoldable pub has_chassis : Table → Text → Bool
has_chassis t chassis_id = any (λ (n : Row Node). n.value.chassis_id == chassis_id) (rows node? t)

-- The loops of providerHasAllocatableAddressLocked; `ignored` is the subnet left out.
provides : Table → Text → Text → Text → Row Network → Bool
provides t provider_id address ignored n =
    not (is_deleting n.meta.state)
    && n.value.external
    && n.value.provider_network_id == provider_id
    && any
        (λ (s : Row Subnet).
          not (s.meta.id == ignored)
          && not (is_deleting s.meta.state)
          && s.value.network_id == n.meta.id
          && valid_ipv4_allocation_address s.value address)
        (rows subnet? t)

-- providerHasAllocatableAddressLocked
unfoldable pub provider_has_allocatable_address : Table → Text → Text → Text → Bool
unfolding provides
provider_has_allocatable_address t provider_id address ignored =
    any (provides t provider_id address ignored) (rows network? t)

-- routerReachesPortAddressLocked
unfoldable pub router_reaches_port_address : Table → Text → Port → Text → Bool
router_reaches_port_address t router_id p address =
    any
      (λ (i : Row RouterInterface).
        i.value.router_id == router_id && port_has_fixed_ip p i.value.subnet_id address)
      (rows router_interface? t)

-- One when the next hop is usable through the external subnet.
external_match : Router → Text → Option (Row Subnet) → ℕ
external_match r next_hop none = 0
external_match r next_hop (some s) =
    if not (is_deleting s.meta.state) && valid_ipv4_next_hop s.value next_hop r.external_ip_address
    then 1
    else 0

interface_gateway_match : Text → Row Subnet → Option ℕ → ℕ
interface_gateway_match next_hop s none = 0
interface_gateway_match next_hop s (some gateway) =
    if not (is_deleting s.meta.state) && valid_ipv4_next_hop s.value next_hop (addr_string gateway)
    then 1
    else 0

interface_subnet_match : Text → Option (Row Subnet) → ℕ
unfolding interface_gateway_match
interface_subnet_match next_hop none = 0
interface_subnet_match next_hop (some s) =
    interface_gateway_match next_hop s (effective_ipv4_gateway s.value)

-- The loop over the router interfaces.
interface_matches : Table → Text → Text → List (Row RouterInterface) → ℕ
unfolding interface_subnet_match
interface_matches t router_id next_hop [] = 0
interface_matches t router_id next_hop (i ∷ interfaces) =
    (if not (i.value.router_id == router_id) || is_deleting i.meta.state
      then 0
      else interface_subnet_match next_hop
          (cast_found subnet? (lookup t Kind.subnet i.value.subnet_id)))
    + interface_matches t router_id next_hop interfaces

-- How many attachments of the router reach the next hop.
pub attachment_matches : Table → Text → Router → StaticRoute → ℕ
unfolding external_match interface_matches
attachment_matches t router_id r route =
    (if is_empty r.external_subnet_id
      then 0
      else external_match r route.next_hop
          (cast_found subnet? (lookup t Kind.subnet r.external_subnet_id)))
    + interface_matches t router_id route.next_hop (rows router_interface? t)

unfoldable pub validate_static_route : Table → Text → Router → StaticRoute → Check
unfolding attachment_matches
validate_static_route t router_id r route = do
  refuse (not (is_empty r.external_subnet_id) && route.destination == text "0.0.0.0/0") conflict
  let matches = attachment_matches t router_id r route
  refuse (nat_beq matches 0) conflict
  refuse (ltb 1 matches) conflict

-- validateRouterStaticRoutesLocked
unfoldable pub validate_router_static_routes : Table → Text → Router → Check
unfolding validate_static_route
validate_router_static_routes t router_id r =
    each (validate_static_route t router_id r) r.static_routes

unfoldable pub validate_provider_network_references : Table → Text → ProviderNetwork → Check
validate_provider_network_references t id value = unless_empty value.default_segment_id (do
  segment ← require_segment t value.default_segment_id
  guard (segment.value.provider_network_id == id) conflict)

-- A reference that is only required to be there.
abbrev pub exists : Table → Kind → Text → Check
exists t kind id = do require t kind id; ok tt

unfoldable pub validate_fixed_ip_reference : Table → Port → FixedIp → Check
validate_fixed_ip_reference t value fixed = do
  s ← require_subnet t fixed.subnet_id
  guard (s.value.network_id == value.network_id) conflict
  unless_empty fixed.address (guard (valid_ipv4_allocation_address s.value fixed.address) conflict)

unfoldable pub validate_chassis : Table → Port → Check
validate_chassis t value =
    if is_empty value.node_id then guard (is_empty value.requested_chassis) conflict else (do
      n ← require_node t value.node_id
      requested ← or_fail (parse_requested_chassis value.requested_chassis) conflict
      refuse
          (any (λ _. true) requested
            && not (requested_chassis_contains value.requested_chassis n.value.chassis_id))
          conflict
      each (λ chassis_id. guard (has_chassis t chassis_id) conflict) requested)

unfoldable pub validate_port_references : Table → Port → Check
unfolding validate_fixed_ip_reference validate_chassis
validate_port_references t value = do
  n ← require_network t value.network_id
  refuse (n.value.external || not (is_empty n.value.provider_network_id)) conflict
  each (validate_fixed_ip_reference t value) value.fixed_ips
  guard (any (λ _. true) value.security_group_ids) conflict
  each (exists t Kind.security_group) value.security_group_ids
  validate_chassis t value

unfoldable pub validate_ip_allocation_references : Table → IpAllocation → Check
validate_ip_allocation_references t value = do
  s ← require_subnet t value.subnet_id
  guard (valid_ipv4_allocation_address s.value value.address) conflict
  unless_empty value.port_id (do
    p ← require_port t value.port_id
    guard (p.value.network_id == s.value.network_id) conflict
    guard (port_has_fixed_ip p.value value.subnet_id value.address) conflict)

unfoldable pub validate_router_references : Table → Text → Router → Check
validate_router_references t id value = do
  unless_empty value.external_network_id (do
    n ← require_network t value.external_network_id
    guard (n.value.external && not (is_empty n.value.provider_network_id)) conflict
    exists t Kind.provider_network n.value.provider_network_id
    s ← require_subnet t value.external_subnet_id
    guard (s.value.network_id == n.meta.id) conflict
    guard (valid_ipv4_allocation_address s.value value.external_ip_address) conflict)
  validate_router_static_routes t id value

unfoldable pub validate_router_interface_references : Table → RouterInterface → Check
validate_router_interface_references t value = do
  exists t Kind.router value.router_id
  s ← require_subnet t value.subnet_id
  n ← require_network t s.value.network_id
  refuse n.value.external conflict
  unless_empty value.port_id (do
    p ← require_port t value.port_id
    guard (p.value.network_id == s.value.network_id) conflict
    guard (port_has_subnet p.value value.subnet_id) conflict)

-- The router of a floating IP and its external network and subnet.
unfoldable pub validate_floating_router : Table → FloatingIp → Check
validate_floating_router t value = unless_empty value.router_id (do
  r ← require_router t value.router_id
  refuse (is_empty r.value.external_network_id || is_empty r.value.external_subnet_id) conflict
  n ← require_network t r.value.external_network_id
  guard (n.value.external && n.value.provider_network_id == value.provider_network_id) conflict
  s ← require_subnet t r.value.external_subnet_id
  guard (s.value.network_id == n.meta.id) conflict
  guard (valid_ipv4_allocation_address s.value value.address) conflict)

unfoldable pub validate_floating_ip_references : Table → FloatingIp → Check
unfolding validate_floating_router
validate_floating_ip_references t value = do
  exists t Kind.provider_network value.provider_network_id
  guard (provider_has_allocatable_address t value.provider_network_id value.address []) conflict
  guard (is_empty value.port_id == is_empty value.fixed_ip_address) conflict
  refuse (not (is_empty value.port_id) && is_empty value.router_id) conflict
  validate_floating_router t value
  unless_empty value.port_id (do
    p ← require_port t value.port_id
    guard (port_has_address p.value value.fixed_ip_address) conflict
    guard (router_reaches_port_address t value.router_id p.value value.fixed_ip_address) conflict)

unfoldable pub validate_security_group_rule_references : Table → SecurityGroupRule → Check
validate_security_group_rule_references t value = do
  exists t Kind.security_group value.security_group_id
  unless_empty value.remote_group_id (exists t Kind.security_group value.remote_group_id)

-- validateReferencesLocked
unfoldable pub validate_references : Table → Resource → Check
unfolding validate_provider_network_references validate_port_references
    validate_ip_allocation_references validate_router_references
    validate_router_interface_references validate_floating_ip_references
    validate_security_group_rule_references
validate_references t r = elim r.body [
  | node _ ↦ ok tt
  | operation _ ↦ ok tt
  | security_group _ ↦ ok tt
  | provider_network value ↦ validate_provider_network_references t r.meta.id value
  | network value ↦
      unless_empty value.provider_network_id
        (exists t Kind.provider_network value.provider_network_id)
  | subnet value ↦ exists t Kind.network value.network_id
  | port value ↦ validate_port_references t value
  | ip_allocation value ↦ validate_ip_allocation_references t value
  | router value ↦ validate_router_references t r.meta.id value
  | router_interface value ↦ validate_router_interface_references t value
  | floating_ip value ↦ validate_floating_ip_references t value
  | provider_segment value ↦ exists t Kind.provider_network value.provider_network_id
  | security_group_rule value ↦ validate_security_group_rule_references t value
]

-- validateAllReferencesLocked
unfoldable pub validate_all_references : Table → Check
validate_all_references t = each (λ r. refuse (not (succeeds (validate_references t r))) conflict) t
