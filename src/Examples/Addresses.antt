-- ===== src/Examples/Addresses.antt =====
-- The theorems on prefixes, addresses and collections, at small subnets.
use proxmox_ovn.Prelude.{all, count, ◌==◌, ℕ, ◌≤◌, ◌≡◌, ◌↔◌, refl, true, [], ◌∷◌, some}
use proxmox_ovn.Text.{to_lower, Text, text, text_beq, text_eq, split, add_to_first, trim_space}
use proxmox_ovn.Netip.{Prefix, parse_prefix, parse_addr, contains, masked}
use proxmox_ovn.Model.Kind.{Kind, parse_collection, collection, parse_collection-collection}
use proxmox_ovn.Model.Patterns.{safe_chassis_id, parse_requested_chassis}
use proxmox_ovn.Model.Patterns.Chassis.{join, parse_requested_chassis_parts}
use proxmox_ovn.Model.Resource.{Subnet}
use proxmox_ovn.Model.Ip.{
  ipv4_subnet_bounds, ipv4_prefixes_overlap, effective_ipv4_gateway, valid_ipv4_allocation_address,
}
use proxmox_ovn.Model.Ip.Overlap.{overlap_shares_address}
use proxmox_ovn.Model.Ip.Allocation.{
  IsHost, IsAllocatable, effective_ipv4_gateway-IsHost, valid_ipv4_allocation_address-IsAllocatable,
}

-- 10.0.0.0/24 and 10.0.0.128/25
abbrev wide : Prefix
wide = record { addr = 167772160; bits = 24 }

abbrev narrow : Prefix
narrow = record { addr = 167772288; bits = 25 }

abbrev lan : Subnet
lan = record {
  network_id = text "n";
  name = text "lan";
  cidr = text "10.0.0.0/24";
  gateway_ip = [];
  enable_dhcp = true;
  dns_nameservers = [];
  dns_domain = [];
  dns_search_domains = [];
  allocation_pools = record { start = text "10.0.0.10"; end = text "10.0.0.20" } ∷ [];
}

overlap_shares_address_example :
    (ipv4_prefixes_overlap (text "10.0.0.0/24") (text "10.0.0.128/25") ≡ true)
    ↔ ((a : ℕ) × (contains wide a ≡ true) × (contains narrow a ≡ true))
unfolding parse_prefix
overlap_shares_address_example =
    overlap_shares_address (text "10.0.0.0/24") (text "10.0.0.128/25") wide narrow refl refl

effective_ipv4_gateway-IsHost_example : IsHost wide 167772161
unfolding parse_prefix effective_ipv4_gateway masked ipv4_subnet_bounds
effective_ipv4_gateway-IsHost_example = effective_ipv4_gateway-IsHost lan wide 167772161 refl refl

valid_ipv4_allocation_address-IsAllocatable_example : IsAllocatable lan wide 167772175
unfolding parse_prefix parse_addr valid_ipv4_allocation_address contains masked
    effective_ipv4_gateway ipv4_subnet_bounds
valid_ipv4_allocation_address-IsAllocatable_example =
    valid_ipv4_allocation_address-IsAllocatable lan (text "10.0.0.15") wide 167772175 refl refl refl

parse_collection-collection_example :
    (parse_collection (text "Floating-IPs") ≡ some Kind.floating_ip)
    ↔ (to_lower (text "Floating-IPs") ≡ collection Kind.floating_ip)
parse_collection-collection_example =
    parse_collection-collection (text "Floating-IPs") Kind.floating_ip

parse_requested_chassis_parts_example :
    (2 ≤ 2)
    × (all safe_chassis_id (text "a" ∷ text "b" ∷ []) ≡ true)
    × ((p : Text) → count (λ q. q == p) (text "a" ∷ text "b" ∷ []) ≤ 1)
    × (join b',' (text "a" ∷ text "b" ∷ []) ≡ text "a,b")
unfolding parse_requested_chassis split add_to_first trim_space text_beq safe_chassis_id
parse_requested_chassis_parts_example =
    parse_requested_chassis_parts (text "a,b") (text "a" ∷ text "b" ∷ []) refl refl
