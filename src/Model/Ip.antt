-- ===== src/Model/Ip.antt =====
-- internal/model/ip.go: the gateway of a subnet, and which addresses it can hand out. Messages
-- of errors are dropped, so a check that only fails or passes is a Bool.
pub mod Bounds
pub mod Allocation
pub mod Overlap
use Prim.Native.Nat.{bit_or}
use proxmox_ovn.Prelude.{
  ℕ, zero, suc, ◌+◌, ◌-◌, ◌*◌, ◌/◌, ◌%◌, ◌^◌, Bool, true, false, not, ◌&&◌, ◌||◌, List, [], ◌∷◌,
  Option, none, some, ltb, leb, nat_beq, if◌then◌else◌,
}
use proxmox_ovn.Text.{Text, text, is_empty}
use proxmox_ovn.Netip.{Prefix, parse_addr, parse_prefix, masked, contains, next}
use proxmox_ovn.Model.Resource.{Subnet, IpRange}

-- ipv4SubnetBounds: the network and the broadcast address
unfoldable pub ipv4_subnet_bounds : Prefix → ℕ × ℕ
unfolding masked
ipv4_subnet_bounds prefix =
    let network = (masked prefix).addr in
    let host_bits = 32 - prefix.bits in
    let mask = (2 ^ host_bits - 1) % 2 ^ 32 in (network, bit_or network mask)

-- The gateway that is written in the subnet, if it is an address of the prefix; without one it
-- is the first host.
chosen_gateway : Subnet → Prefix → ℕ → Option ℕ
unfolding next
chosen_gateway subnet prefix network =
    if is_empty subnet.gateway_ip then next network else elim (parse_addr subnet.gateway_ip) [
      | none ↦ none
      | some gateway ↦ if contains prefix gateway then some gateway else none
    ]

usable_gateway : ℕ × ℕ → Option ℕ → Option ℕ
usable_gateway bounds none = none
usable_gateway (network, broadcast) (some gateway) =
    if nat_beq gateway network || nat_beq gateway broadcast then none else some gateway

-- EffectiveIPv4Gateway, once the cidr is parsed
pub gateway_of : Subnet → Prefix → Option ℕ
unfolding chosen_gateway usable_gateway
gateway_of subnet parsed =
    let prefix = masked parsed in
    if ltb 30 prefix.bits
    then none
    else usable_gateway (ipv4_subnet_bounds prefix)
        (chosen_gateway subnet prefix (ipv4_subnet_bounds prefix).0)

-- EffectiveIPv4Gateway
unfoldable pub effective_ipv4_gateway : Subnet → Option ℕ
unfolding gateway_of
effective_ipv4_gateway subnet = elim (parse_prefix subnet.cidr) [
  | none ↦ none
  | some prefix ↦ gateway_of subnet prefix
]

-- The loop over the allocation pools: a pool that is no range inside the prefix ends it.
pub in_allocation_pools : Prefix → ℕ → List IpRange → Bool
in_allocation_pools prefix addr [] = false
in_allocation_pools prefix addr (pool ∷ pools) =
    let rest = in_allocation_pools prefix addr pools in
    elim (parse_addr pool.start) [
      | none ↦ false
      | some start ↦ elim (parse_addr pool.end) [
        | none ↦ false
        | some end ↦
            if not (contains prefix start) || not (contains prefix end) || ltb end start
            then false
            else if leb start addr && leb addr end
            then true
            else rest
      ]
    ]

pools_allow : Prefix → ℕ → List IpRange → Bool
unfolding in_allocation_pools
pools_allow prefix addr [] = true
pools_allow prefix addr (pool ∷ pools) = in_allocation_pools prefix addr (pool ∷ pools)

-- ValidateIPv4AllocationAddress, once the cidr and the address are parsed
pub allocatable : Subnet → Prefix → ℕ → Bool
unfolding pools_allow
allocatable subnet parsed addr =
    let prefix = masked parsed in
    let bounds = ipv4_subnet_bounds prefix in
    if not (contains prefix addr) then false else elim (effective_ipv4_gateway subnet) [
      | none ↦ false
      | some gateway ↦
          if nat_beq addr bounds.0 || nat_beq addr bounds.1 || nat_beq addr gateway
          then false
          else pools_allow prefix addr subnet.allocation_pools
    ]

-- ValidateIPv4AllocationAddress returns no error
unfoldable pub valid_ipv4_allocation_address : Subnet → Text → Bool
unfolding allocatable
valid_ipv4_allocation_address subnet address = elim (parse_prefix subnet.cidr) [
  | none ↦ false
  | some prefix ↦ elim (parse_addr address) [
    | none ↦ false
    | some addr ↦ allocatable subnet prefix addr
  ]
]

-- The test against the router's own address.
differs_from_local : Prefix → ℕ → Text → Bool
differs_from_local prefix next_hop local_address =
    if is_empty local_address then true else elim (parse_addr local_address) [
      | none ↦ false
      | some local ↦ contains prefix local && not (nat_beq next_hop local)
    ]

-- ValidateIPv4NextHop, once the cidr and the address are parsed
pub reachable_next_hop : Prefix → ℕ → Text → Bool
unfolding differs_from_local
reachable_next_hop parsed next_hop local_address =
    let prefix = masked parsed in
    let bounds = ipv4_subnet_bounds prefix in
    if not (contains prefix next_hop)
    then false
    else if nat_beq next_hop bounds.0 || nat_beq next_hop bounds.1
    then false
    else differs_from_local prefix next_hop local_address

-- ValidateIPv4NextHop returns no error
unfoldable pub valid_ipv4_next_hop : Subnet → Text → Text → Bool
unfolding reachable_next_hop
valid_ipv4_next_hop subnet address local_address = elim (parse_prefix subnet.cidr) [
  | none ↦ false
  | some prefix ↦ elim (parse_addr address) [
    | none ↦ false
    | some next_hop ↦ reachable_next_hop prefix next_hop local_address
  ]
]

pub overlap : Prefix → Prefix → Bool
overlap parsed_left parsed_right =
    let left = masked parsed_left in
    let right = masked parsed_right in contains left right.addr || contains right left.addr

-- IPv4PrefixesOverlap
unfoldable pub ipv4_prefixes_overlap : Text → Text → Bool
unfolding overlap
ipv4_prefixes_overlap left_cidr right_cidr = elim (parse_prefix left_cidr) [
  | none ↦ false
  | some left ↦ elim (parse_prefix right_cidr) [ none ↦ false | some right ↦ overlap left right ]
]
