-- ===== src/Model/Ip/Overlap.antt =====
-- IPv4PrefixesOverlap decides whether two prefixes share an address.
use native.Mathlib.Decide.{dec_le}
use proxmox_ovn.Prelude.{ℕ, ◌≡◌, sym, ◌∙◌, ◌↔◌, inl, inr, true, ◌||◌, some, arith, or-true}
use proxmox_ovn.Text.{Text}
use proxmox_ovn.Netip.{Prefix, parse_prefix, masked, contains}
use proxmox_ovn.Netip.Laws.{contains-masked, contains-masked_self, contains_wider}
use proxmox_ovn.Model.Ip.{overlap, ipv4_prefixes_overlap}

-- The two tests look at the masked prefixes.
overlap_tests :
    (p q : Prefix) → overlap p q ≡ (contains p (masked q).addr || contains q (masked p).addr)
unfolding overlap
overlap_tests p q = rw (contains-masked p, contains-masked q)

overlap_shared :
    (p q : Prefix) → overlap p q ≡ true → (a : ℕ) × (contains p a ≡ true) × (contains q a ≡ true)
overlap_shared p q h = elim (or-true _ _ (sym (overlap_tests p q) ∙ h)) [
  | inl e ↦ ((masked q).addr, e, contains-masked_self q)
  | inr e ↦ ((masked p).addr, contains-masked_self p, e)
]

shared_overlap :
    (p q : Prefix) (a : ℕ) → contains p a ≡ true → contains q a ≡ true → overlap p q ≡ true
shared_overlap p q a hp hq = elim (dec_le p.bits q.bits) [
  | yes h ↦ ground (arith, overlap_tests p q, contains_wider p q a h hp hq)
  | no h ↦ ground (arith, overlap_tests p q, contains_wider q p a (omega arith) hq hp)
]

-- IPv4PrefixesOverlap holds of two texts that are IPv4 prefixes exactly when some address lies
-- in both.
pub overlap_shares_address :
    (l r : Text) (p q : Prefix)
    → parse_prefix l ≡ some p
    → parse_prefix r ≡ some q
    → (ipv4_prefixes_overlap l r ≡ true) ↔ ((a : ℕ) × (contains p a ≡ true) × (contains q a ≡ true))
unfolding ipv4_prefixes_overlap
overlap_shares_address l r p q hl hr =
    rw (hl, hr, ipv4_prefixes_overlap) (overlap_shared p q, λ s. shared_overlap p q s.0 s.1 s.2)

-- The order of the two prefixes does not matter, parsed or not.
pub overlap_comm : (l r : Text) → ipv4_prefixes_overlap l r ≡ ipv4_prefixes_overlap r l
unfolding ipv4_prefixes_overlap overlap
overlap_comm l r = ground arith
