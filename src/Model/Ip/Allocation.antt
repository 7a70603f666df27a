-- ===== src/Model/Ip/Allocation.antt =====
-- EffectiveIPv4Gateway and ValidateIPv4AllocationAddress: what they accept.
use proxmox_ovn.Prelude.{
  ℕ, suc, ◌+◌, ◌-◌, ◌≤◌, ◌<◌, ◌≡◌, ◌≢◌, refl, ◌⊎◌, inl, inr, true, false, List, [], ◌∷◌, Option,
  none, some, arith, Option-cases, Bool-cases, In, ltb,
}
use proxmox_ovn.Text.{Text}
use native.Mathlib.Decide.{dec_le}
use proxmox_ovn.Netip.Laws.{bits-masked, contains-masked}
use proxmox_ovn.Netip.Bits.{pow_mono}
use proxmox_ovn.Netip.{Prefix, parse_addr, parse_prefix, block, masked, contains}
use proxmox_ovn.Model.Resource.{Subnet, IpRange}
use proxmox_ovn.Model.Ip.{
  ipv4_subnet_bounds, chosen_gateway, usable_gateway, gateway_of, effective_ipv4_gateway,
  in_allocation_pools, pools_allow, allocatable, valid_ipv4_allocation_address,
}
use proxmox_ovn.Model.Ip.Bounds.{contains_between, bounds-masked, bounds-network, bounds-broadcast}

-- An address of the prefix that is neither of its ends.
pub record IsHost (p : Prefix) (a : ℕ) : Type 0 where
  pub above : (ipv4_subnet_bounds p).0 < a
  pub below : a < (ipv4_subnet_bounds p).1

-- A pool that is a range of the prefix around the address.
pub record Covers (p : Prefix) (a : ℕ) (pool : IpRange) : Type 0 where
  pub first : ℕ
  pub last : ℕ
  pub first_parsed : parse_addr pool.start ≡ some first
  pub last_parsed : parse_addr pool.end ≡ some last
  pub first_inside : contains p first ≡ true
  pub last_inside : contains p last ≡ true
  pub from : first ≤ a
  pub to : a ≤ last

four-le-block : (p : Prefix) → p.bits ≤ 30 → 4 ≤ block p
four-le-block p h = omega (arith, pow_mono 2 (32 - p.bits))

first_host_fits : (p : Prefix) → p.bits ≤ 30 → suc (masked p).addr < (ipv4_subnet_bounds p).1
first_host_fits p h = omega (arith, bounds-broadcast p, four-le-block p h)

-- The choice of the gateway, as what it can be.
chosen_cases :
    (s : Subnet) (p : Prefix) (n : ℕ) {g : ℕ}
    → chosen_gateway s p n ≡ some g
    → (g ≡ n + 1) ⊎ (contains p g ≡ true)
unfolding chosen_gateway
chosen_cases s p n h = ground arith

usable_cases :
    (b : ℕ × ℕ) (o : Option ℕ) {g : ℕ}
    → usable_gateway b o ≡ some g
    → (o ≡ some g) × (g ≢ b.0) × (g ≢ b.1)
unfolding usable_gateway
usable_cases b none h = cc
usable_cases b (some x) h = ground arith

gateway_of_cases :
    (s : Subnet) (p : Prefix) {g : ℕ}
    → gateway_of s p ≡ some g
    → (p.bits ≤ 30)
      × (chosen_gateway s (masked p) (ipv4_subnet_bounds p).0 ≡ some g)
      × (g ≢ (ipv4_subnet_bounds p).0)
      × (g ≢ (ipv4_subnet_bounds p).1)
unfolding gateway_of
gateway_of_cases s p h = elim (Bool-cases (ltb 30 (masked p).bits)) [
  | inl wide ↦ cc (rw (wide, gateway_of) at h)
  | inr small ↦
      let u = usable_cases _ _ (rw (small, bounds-masked p, gateway_of) at h) in
      (ground (arith, bits-masked p), u.0, u.1, u.2)
]

gateway_of-IsHost : (s : Subnet) (p : Prefix) {g : ℕ} → gateway_of s p ≡ some g → IsHost p g
gateway_of-IsHost s p {g} h =
    let (wide, chosen, not_network, not_broadcast) = gateway_of_cases s p h in
    elim (chosen_cases s (masked p) _ chosen) [
      | inl e ↦ omega (arith, bounds-network p, first_host_fits p wide)
      | inr inside ↦ omega (arith, (contains_between p g).0 (rw (contains-masked p g) at inside))
    ]

-- The gateway of a subnet is a host of its prefix, whether it is written or chosen.
pub effective_ipv4_gateway-IsHost :
    (s : Subnet) (p : Prefix) (g : ℕ)
    → parse_prefix s.cidr ≡ some p
    → effective_ipv4_gateway s ≡ some g
    → IsHost p g
unfolding effective_ipv4_gateway
effective_ipv4_gateway-IsHost s p g cidr h =
    gateway_of-IsHost s p (rw (cidr, effective_ipv4_gateway) at h)

Covers-step :
    (p : Prefix) (a : ℕ) (pool : IpRange) (pools : List IpRange)
    → in_allocation_pools p a (pool ∷ pools) ≡ true
    → Covers p a pool ⊎ (in_allocation_pools p a pools ≡ true)
unfolding in_allocation_pools
Covers-step p a pool pools h = elim (Option-cases (parse_addr pool.start)) [
  | inl e ↦ cc (rw (e, in_allocation_pools) at h)
  | inr (x, ex) ↦ elim (Option-cases (parse_addr pool.end)) [
    | inl e ↦ cc (rw (ex, e, in_allocation_pools) at h)
    | inr (y, ey) ↦ elim (dec_le x a) [
      | no e ↦ inr (ground arith)
      | yes low ↦ elim (dec_le a y) [
        | no e ↦ inr (ground arith)
        | yes high ↦ inl (record {
          first = x;
          last = y;
          first_parsed = ex;
          last_parsed = ey;
          first_inside = ground arith;
          last_inside = ground arith;
          from = low;
          to = high;
        })
      ]
    ]
  ]
]

pools_cover :
    (p : Prefix) (a : ℕ) (pools : List IpRange)
    → in_allocation_pools p a pools ≡ true
    → (pool : IpRange) × In pool pools × Covers p a pool
unfolding in_allocation_pools
pools_cover p a [] h = cc
pools_cover p a (pool ∷ pools) h = elim (Covers-step p a pool pools h) [
  | inl c ↦ (pool, inl refl, c)
  | inr rest ↦ let (q, m, c) = pools_cover p a pools rest in (q, inr m, c)
]

-- What an address needs to be handed out on a subnet whose cidr is the prefix.
pub record IsAllocatable (s : Subnet) (p : Prefix) (a : ℕ) : Type 0 where
  pub host : IsHost p a
  pub gateway : ℕ
  pub gateway_found : effective_ipv4_gateway s ≡ some gateway
  pub not_gateway : a ≢ gateway
  pub pooled :
      (s.allocation_pools ≡ []) ⊎ ((pool : IpRange) × In pool s.allocation_pools × Covers p a pool)

Covers-unmasked : (p : Prefix) (a : ℕ) (pool : IpRange) → Covers (masked p) a pool → Covers p a pool
Covers-unmasked p a pool c = record {
  first = c.first;
  last = c.last;
  first_parsed = c.first_parsed;
  last_parsed = c.last_parsed;
  first_inside = rw (contains-masked p c.first) at c.first_inside;
  last_inside = rw (contains-masked p c.last) at c.last_inside;
  from = c.from;
  to = c.to;
}

pools_allow_cases :
    (p : Prefix) (a : ℕ) (pools : List IpRange)
    → pools_allow (masked p) a pools ≡ true
    → (pools ≡ []) ⊎ ((pool : IpRange) × In pool pools × Covers p a pool)
unfolding pools_allow
pools_allow_cases p a [] h = inl refl
pools_allow_cases p a (pool ∷ pools) h =
    let (q, m, c) = pools_cover (masked p) a (pool ∷ pools) h in inr (q, m, Covers-unmasked p a q c)

allocatable_no_gateway :
    (s : Subnet) (p : Prefix) (a : ℕ) → effective_ipv4_gateway s ≡ none → allocatable s p a ≡ false
unfolding allocatable
allocatable_no_gateway s p a e = ground arith

allocatable_parts :
    (s : Subnet) (p : Prefix) (a g : ℕ)
    → effective_ipv4_gateway s ≡ some g
    → allocatable s p a ≡ true
    → (contains p a ≡ true)
      × (a ≢ (ipv4_subnet_bounds p).0)
      × (a ≢ (ipv4_subnet_bounds p).1)
      × (a ≢ g)
      × (pools_allow (masked p) a s.allocation_pools ≡ true)
unfolding allocatable
allocatable_parts s p a g e h =
    let h' = rw (e, bounds-masked p, contains-masked p a, allocatable) at h in
    (ground arith, ground arith, ground arith, ground arith, ground arith)

-- An address that ValidateIPv4AllocationAddress accepts is a host of the subnet's prefix, is not
-- its gateway, and lies in one of its allocation pools if the subnet has any.
pub valid_ipv4_allocation_address-IsAllocatable :
    (s : Subnet) (address : Text) (p : Prefix) (a : ℕ)
    → parse_prefix s.cidr ≡ some p
    → parse_addr address ≡ some a
    → valid_ipv4_allocation_address s address ≡ true
    → IsAllocatable s p a
unfolding valid_ipv4_allocation_address
valid_ipv4_allocation_address-IsAllocatable s address p a cidr parsed h =
    let h' = rw (cidr, parsed, valid_ipv4_allocation_address) at h in
    elim (Option-cases (effective_ipv4_gateway s)) [
      | inl e ↦ cc (allocatable_no_gateway s p a e)
      | inr (g, e) ↦
          let (inside, not_network, not_broadcast, not_gateway, pools) =
            allocatable_parts s p a g e h' in
          let between = (contains_between p a).0 inside in
          record {
            host = omega arith;
            gateway = g;
            gateway_found = e;
            not_gateway = not_gateway;
            pooled = pools_allow_cases p a s.allocation_pools pools;
          }
    ]
