-- ===== src/Store/Referrers.antt =====
-- references, validateNewReferenceStatesLocked and firstReferenceLocked: who names whom.
use proxmox_ovn.Prelude.{
  Bool, true, false, not, ◌&&◌, ◌||◌, Option, none, some, any, count, nat_beq, ◌==◌,
}
use proxmox_ovn.Text.{Text, text_eq, is_empty}
use proxmox_ovn.Netip.{addr_string}
use proxmox_ovn.Result.{Check, conflict, refuse, each}
use proxmox_ovn.Model.Kind.{Kind, kind_eq}
use proxmox_ovn.Model.Ip.{
  effective_ipv4_gateway, valid_ipv4_allocation_address, valid_ipv4_next_hop,
}
use proxmox_ovn.Model.Resource.{
  ResourceState, Resource, resource_kind, Network, Subnet, FixedIp, Router, StaticRoute,
  RouterInterface, FloatingIp, ProviderNetwork, ProviderSegment, Body, network, subnet, port,
  ip_allocation, router, router_interface, floating_ip, provider_network, provider_segment,
  security_group, security_group_rule, node, operation,
}
use proxmox_ovn.Store.Table.{
  Table, Row, rows, lookup, cast_found, has_key, network?, subnet?, port?, router?,
  router_interface?, floating_ip?, provider_network?, provider_segment?,
}
use proxmox_ovn.Store.References.{port_has_fixed_ip, provider_has_allocatable_address}

-- references
unfoldable pub references : Body → Kind → Text → Bool
references (provider_network value) kind id =
    kind == Kind.provider_segment && value.default_segment_id == id
references (network value) kind id =
    kind == Kind.provider_network && value.provider_network_id == id
references (subnet value) kind id = kind == Kind.network && value.network_id == id
references (port value) kind id =
    (kind == Kind.network && value.network_id == id)
    || (kind == Kind.subnet && any (λ (fixed : FixedIp). fixed.subnet_id == id) value.fixed_ips)
    || (kind == Kind.security_group && any (λ group_id. group_id == id) value.security_group_ids)
references (ip_allocation value) kind id =
    (kind == Kind.subnet && value.subnet_id == id) || (kind == Kind.port && value.port_id == id)
references (router value) kind id =
    (kind == Kind.network && value.external_network_id == id)
    || (kind == Kind.subnet && value.external_subnet_id == id)
references (router_interface value) kind id =
    (kind == Kind.router && value.router_id == id)
    || (kind == Kind.subnet && value.subnet_id == id)
    || (kind == Kind.port && value.port_id == id)
references (floating_ip value) kind id =
    (kind == Kind.provider_network && value.provider_network_id == id)
    || (kind == Kind.port && value.port_id == id)
    || (kind == Kind.router && value.router_id == id)
references (provider_segment value) kind id =
    kind == Kind.provider_network && value.provider_network_id == id
references (security_group_rule value) kind id =
    kind == Kind.security_group && (value.security_group_id == id || value.remote_group_id == id)
references (security_group _) kind id = false
references (node _) kind id = false
references (operation _) kind id = false

abbrev pub is_unavailable : ResourceState → Bool
is_unavailable ResourceState.deleting = true
is_unavailable ResourceState.error = true
is_unavailable _ = false

abbrev previously : Option Body → Kind → Text → Bool
previously none kind id = false
previously (some previous) kind id = references previous kind id

validate_new_reference : Body → Option Body → Resource → Check
validate_new_reference candidate previous target =
    let kind = resource_kind target in
    let id = target.meta.id in
    refuse
      (references candidate kind id
        && not (previously previous kind id)
        && is_unavailable target.meta.state)
      conflict

-- validateNewReferenceStatesLocked
unfoldable pub validate_new_reference_states : Table → Body → Option Body → Check
unfolding validate_new_reference
validate_new_reference_states t candidate previous =
    each (validate_new_reference candidate previous) t

-- The first loop of firstReferenceLocked: another resource references this one.
unfoldable pub has_referrer : Table → Kind → Text → Bool
has_referrer t kind id =
    any (λ (r : Resource). not (has_key kind id r) && references r.body kind id) t

-- The last segment of a provider without a default segment serves the provider's networks.
segment_in_use : Table → Option (Row ProviderSegment) → Option (Row ProviderNetwork) → Bool
segment_in_use t none provider = false
segment_in_use t (some segment) none = false
segment_in_use t (some segment) (some provider) =
    is_empty provider.value.default_segment_id
    && nat_beq
        (count
          (λ (s : Row ProviderSegment).
            s.value.provider_network_id == segment.value.provider_network_id)
          (rows provider_segment? t))
        1
    && any (λ (n : Row Network). n.value.provider_network_id == segment.value.provider_network_id)
        (rows network? t)

provider_of : Table → Option (Row ProviderSegment) → Option (Row ProviderNetwork)
provider_of t none = none
provider_of t (some segment) =
    cast_found provider_network? (lookup t Kind.provider_network segment.value.provider_network_id)

-- A static route of the router goes through the interface.
routed : Option (Row Router) → Option (Row Subnet) → Bool
routed none s = false
routed (some r) none = false
routed (some r) (some s) = elim (effective_ipv4_gateway s.value) [
  | none ↦ false
  | some gateway ↦
      any
        (λ (route : StaticRoute). valid_ipv4_next_hop s.value route.next_hop (addr_string gateway))
        r.value.static_routes
]

-- A floating IP of the router is bound to a port behind the interface.
floats : Table → RouterInterface → Row FloatingIp → Bool
floats t i f =
    f.value.router_id == i.router_id
    && not (is_empty f.value.port_id)
    && (elim (cast_found port? (lookup t Kind.port f.value.port_id)) [
      | none ↦ false
      | some p ↦ port_has_fixed_ip p.value i.subnet_id f.value.fixed_ip_address
    ])

interface_in_use : Table → Option (Row RouterInterface) → Bool
unfolding routed floats
interface_in_use t none = false
interface_in_use t (some i) =
    routed (cast_found router? (lookup t Kind.router i.value.router_id))
      (cast_found subnet? (lookup t Kind.subnet i.value.subnet_id))
    || any (floats t i.value) (rows floating_ip? t)

-- A floating IP of the provider lies in this external subnet and in no other.
subnet_in_use : Table → Text → Option (Row Subnet) → Option (Row Network) → Bool
subnet_in_use t id none n = false
subnet_in_use t id (some s) none = false
subnet_in_use t id (some s) (some n) =
    n.value.external
    && not (is_empty n.value.provider_network_id)
    && any
        (λ (f : Row FloatingIp).
          f.value.provider_network_id == n.value.provider_network_id
          && valid_ipv4_allocation_address s.value f.value.address
          && not
              (provider_has_allocatable_address t n.value.provider_network_id f.value.address id))
        (rows floating_ip? t)

network_of : Table → Option (Row Subnet) → Option (Row Network)
network_of t none = none
network_of t (some s) = cast_found network? (lookup t Kind.network s.value.network_id)

-- firstReferenceLocked(kind, id) != ""
unfoldable pub is_referenced : Table → Kind → Text → Bool
unfolding has_referrer segment_in_use provider_of interface_in_use subnet_in_use network_of
is_referenced t kind id =
    let segment = cast_found provider_segment? (lookup t kind id) in
    let s = cast_found subnet? (lookup t kind id) in
    has_referrer t kind id
    || (kind == Kind.provider_segment && segment_in_use t segment (provider_of t segment))
    || (kind == Kind.router_interface
        && interface_in_use t (cast_found router_interface? (lookup t kind id)))
    || (kind == Kind.subnet && subnet_in_use t id s (network_of t s))
