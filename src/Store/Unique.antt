-- ===== src/Store/Unique.antt =====
-- conflictField, externalAddressClaimsLocked, validateUniqueLocked and validateAllUniqueLocked.
use proxmox_ovn.Prelude.{
  ℕ, Bool, true, false, not, ◌&&◌, ◌||◌, [], ◌∷◌, ◌++◌, Option, none, some, any, pos, ltb_ℤ, int_eq,
  ◌==◌, if◌then◌else◌,
}
use proxmox_ovn.Text.{Text, text, text_eq, is_empty, equal_fold}
use proxmox_ovn.Netip.{addr_string}
use proxmox_ovn.Result.{Check, already_exists, conflict, ◌>>◌, refuse, each, succeeds}
use proxmox_ovn.Model.Kind.{Kind, kind_eq}
use proxmox_ovn.Model.Ip.{effective_ipv4_gateway, ipv4_prefixes_overlap}
use proxmox_ovn.Model.Resource.{
  Resource, resource_kind, Network, FixedIp, Port, ProviderNetworkType, Body, network, subnet, port,
  ip_allocation, router, router_interface, floating_ip, provider_network, provider_segment,
  security_group, node, operation,
}
use proxmox_ovn.Store.Table.{Table, Row, lookup, cast_found, has_key, network?}

-- The field, if the test holds.
abbrev pub field_if : Bool → Text → Text → Text
field_if b field rest = if b then field else rest

unfoldable pub network_type_beq : ProviderNetworkType → ProviderNetworkType → Bool
network_type_beq ProviderNetworkType.flat ProviderNetworkType.flat = true
network_type_beq ProviderNetworkType.vlan ProviderNetworkType.vlan = true
network_type_beq (ProviderNetworkType.other s) (ProviderNetworkType.other t) = s == t
network_type_beq _ _ = false

unfoldable pub target_beq : Option Kind → Option Kind → Bool
target_beq none none = true
target_beq (some a) (some b) = a == b
target_beq _ _ = false

-- A fixed address of both ports.
unfoldable pub shares_fixed_ip : Port → Port → Bool
shares_fixed_ip left right =
    any
      (λ (l : FixedIp).
        not (is_empty l.address)
        && any (λ (r : FixedIp). l.subnet_id == r.subnet_id && l.address == r.address)
            right.fixed_ips)
      left.fixed_ips

unfoldable pub conflict_ports : Port → Port → Text
unfolding shares_fixed_ip
conflict_ports left right =
    field_if (not (is_empty left.mac_address) && equal_fold left.mac_address right.mac_address)
      (text "mac_address")
      (field_if (not (is_empty left.lsp_name) && left.lsp_name == right.lsp_name) (text "lsp_name")
        (field_if
          (not (is_empty left.node_id)
            && ltb_ℤ (pos 0) left.vmid
            && not (is_empty left.nic)
            && left.node_id == right.node_id
            && left.vmid == right.vmid
            && left.nic == right.nic)
          (text "node_id,vmid,nic")
          (field_if (shares_fixed_ip left right) (text "fixed_ips.subnet_id,address") [])))

-- conflictField; the two bodies are of one kind
unfoldable pub conflict_field : Body → Body → Text
unfolding conflict_ports network_type_beq target_beq
conflict_field (network left) (network right) = field_if (left.name == right.name) (text "name") []
conflict_field (subnet left) (subnet right) =
    field_if (left.network_id == right.network_id && ipv4_prefixes_overlap left.cidr right.cidr)
      (text "network_id,cidr-overlap")
      (field_if (left.network_id == right.network_id && left.name == right.name)
        (text "network_id,name") [])
conflict_field (port left) (port right) = conflict_ports left right
conflict_field (ip_allocation left) (ip_allocation right) =
    field_if (left.subnet_id == right.subnet_id && left.address == right.address)
      (text "subnet_id,address") []
conflict_field (router left) (router right) = field_if (left.name == right.name) (text "name") []
conflict_field (router_interface left) (router_interface right) =
    field_if (left.router_id == right.router_id && left.subnet_id == right.subnet_id)
      (text "router_id,subnet_id") []
conflict_field (floating_ip left) (floating_ip right) =
    field_if
      (left.provider_network_id == right.provider_network_id && left.address == right.address)
      (text "provider_network_id,address") []
conflict_field (provider_network left) (provider_network right) =
    field_if (left.name == right.name) (text "name") []
conflict_field (provider_segment left) (provider_segment right) =
    field_if (left.provider_network_id == right.provider_network_id && left.name == right.name)
      (text "provider_network_id,name")
      (field_if
        (left.physical_network == right.physical_network
          && network_type_beq left.network_type right.network_type
          && left.vlan_id == right.vlan_id)
        (text "physical_network,network_type,vlan_id") [])
conflict_field (security_group left) (security_group right) =
    field_if (left.name == right.name) (text "name") []
conflict_field (operation left) (operation right) =
    field_if (left.idempotency_key == right.idempotency_key) (text "idempotency_key") (
      field_if
        (target_beq left.target_kind right.target_kind
          && left.target_id == right.target_id
          && left.target_revision == right.target_revision)
        (text "target_kind,target_id,target_revision") [])
conflict_field (node left) (node right) =
    field_if (left.name == right.name) (text "name")
      (field_if (left.chassis_id == right.chassis_id) (text "chassis_id") [])
conflict_field _ _ = []

-- The claim of an address on a provider network, if both are known.
claim_of : Text → Text → Option Text
claim_of provider_id address =
    if is_empty provider_id || is_empty address then none else some (provider_id ++ (0 ∷ address))

gateway_text : Option ℕ → Text
gateway_text none = []
gateway_text (some gateway) = addr_string gateway

network_provider : Option (Row Network) → Text
network_provider none = []
network_provider (some n) = n.value.provider_network_id

-- externalAddressClaimsLocked, which answers at most one claim
unfoldable pub external_address_claim : Table → Body → Option Text
unfolding claim_of gateway_text network_provider
external_address_claim t (subnet value) =
    claim_of (network_provider (cast_found network? (lookup t Kind.network value.network_id)))
      (gateway_text (effective_ipv4_gateway value))
external_address_claim t (router value) =
    claim_of
      (network_provider (cast_found network? (lookup t Kind.network value.external_network_id)))
      value.external_ip_address
external_address_claim t (floating_ip value) = claim_of value.provider_network_id value.address
external_address_claim t _ = none

abbrev same_claim : Option Text → Option Text → Bool
same_claim none existing = false
same_claim (some claim) none = false
same_claim (some claim) (some other) = claim == other

-- The first loop: an entry of the kind, other than the ignored one, with a field in common.
unfoldable pub conflicts_with : Body → Kind → Text → Resource → Bool
conflicts_with candidate kind ignored existing =
    resource_kind existing == kind
    && not (existing.meta.id == ignored)
    && not (is_empty (conflict_field candidate existing.body))

-- The second loop: another resource claims the same provider address. Only subnets, routers and
-- floating IPs have claims.
unfoldable pub claims_with : Table → Body → Kind → Text → Resource → Bool
claims_with t candidate kind ignored existing =
    not (has_key kind ignored existing)
    && same_claim (external_address_claim t candidate) (external_address_claim t existing.body)

-- validateUniqueLocked
unfoldable pub validate_unique : Table → Resource → Text → Check
unfolding conflicts_with claims_with
validate_unique t candidate ignored = do
  let kind = resource_kind candidate
  each (λ existing. refuse (conflicts_with candidate.body kind ignored existing) already_exists) t
  each (λ existing. refuse (claims_with t candidate.body kind ignored existing) already_exists) t

-- validateAllUniqueLocked
unfoldable pub validate_all_unique : Table → Check
validate_all_unique t =
    each (λ (r : Resource). refuse (not (succeeds (validate_unique t r r.meta.id))) conflict) t
