-- ===== src/Model/Ip/Bounds.antt =====
-- ipv4SubnetBounds: the two ends of a prefix are exactly the ends of Contains.
use Prim.Native.Nat.{bit_or}
use native.Mathlib.Nat.{mod-eq_of_lt}
use proxmox_ovn.Prelude.{ℕ, ◌+◌, ◌-◌, ◌/◌, ◌%◌, ◌^◌, ◌≤◌, ◌≡◌, refl, ap, ◌∙◌, ◌↔◌, true, arith}
use proxmox_ovn.Netip.Bits.{pow_mono, bit_or-mask}
use proxmox_ovn.Netip.Laws.{contains_iff, block-pos, masked-masked}
use proxmox_ovn.Netip.{Prefix, block, masked, contains}
use proxmox_ovn.Model.Ip.{ipv4_subnet_bounds}

-- The mask fits 32 bits.
mask_fits : (p : Prefix) → (block p - 1) % 2 ^ 32 ≡ block p - 1
mask_fits p = mod-eq_of_lt (omega (arith, block-pos p, pow_mono (32 - p.bits) 32))

pub bounds-network : (p : Prefix) → (ipv4_subnet_bounds p).0 ≡ (masked p).addr
unfolding ipv4_subnet_bounds
bounds-network p = refl

pub bounds-broadcast : (p : Prefix) → (ipv4_subnet_bounds p).1 ≡ (masked p).addr + (block p - 1)
unfolding ipv4_subnet_bounds
bounds-broadcast p =
    ap (bit_or (masked p).addr) (mask_fits p) ∙ bit_or-mask (32 - p.bits) (p.addr / block p)

-- A prefix contains an address exactly when it lies between the network and the broadcast
-- address that ipv4SubnetBounds computes.
pub contains_between :
    (p : Prefix) (a : ℕ)
    → (contains p a ≡ true) ↔ (((ipv4_subnet_bounds p).0 ≤ a) × (a ≤ (ipv4_subnet_bounds p).1))
contains_between p a = (
  (λ h. (
    omega (arith, bounds-network p, (contains_iff p a).0 h),
    omega (arith, bounds-broadcast p, block-pos p, (contains_iff p a).0 h),
  )),
  (λ h.
      (contains_iff p a).1
        (omega (arith, bounds-network p), omega (arith, bounds-broadcast p, block-pos p))),
)

pub bounds-masked : (p : Prefix) → ipv4_subnet_bounds (masked p) ≡ ipv4_subnet_bounds p
unfolding ipv4_subnet_bounds
bounds-masked p =
    ap (λ (q : Prefix). (q.addr, bit_or q.addr ((2 ^ (32 - p.bits) - 1) % 2 ^ 32)))
      (masked-masked p)
