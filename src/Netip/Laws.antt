-- ===== src/Netip/Laws.antt =====
-- What the address arithmetic of prefixes gives: Contains is an interval, Masked keeps it, and
-- of two prefixes that share an address one lies in the other.
use native.Mathlib.Nat.{
  div-div-eq-div-mul, div-add-mod', mod-lt, div-eq_of_lt-le, pow-suc, add-suc, add-zero, mul_assoc,
}
use mathlib.Core.Path.{◌≡⟨◌⟩◌, ◌∎}
use proxmox_ovn.Prelude.{
  ℕ, zero, suc, ◌+◌, ◌-◌, ◌*◌, ◌/◌, ◌^◌, ◌≤◌, ◌<◌, ◌≡◌, refl, sym, ap, ◌∙◌, ◌↔◌, true, arith,
  nat_beq, nat_beq_iff,
}
use proxmox_ovn.Netip.Bits.{pow_pos}
use proxmox_ovn.Netip.{Prefix, block, masked, contains}

div_bounds : (a n : ℕ) → 0 < n → (a / n * n ≤ a) × (a < a / n * n + n)
div_bounds a n h = (omega (arith, div-add-mod' a n), omega (arith, div-add-mod' a n, mod-lt a h))

-- The interval of one block.
quotient : (a n q : ℕ) → q * n ≤ a → a < q * n + n → a / n ≡ q
quotient a n q low high = div-eq_of_lt-le n low (grind arith)

pub mul_div : (n q : ℕ) → 0 < n → q * n / n ≡ q
mul_div n q h = quotient (q * n) n q (omega arith) (omega arith)

pub block-pos : (p : Prefix) → 0 < block p
block-pos p = pow_pos (32 - p.bits)

pub contains_iff :
    (p : Prefix) (a : ℕ)
    → (contains p a ≡ true) ↔ (((masked p).addr ≤ a) × (a < (masked p).addr + block p))
unfolding contains masked
contains_iff p a = (
  (λ h.
      rw (← (nat_beq_iff (a / block p) (p.addr / block p)).0 h)
        (div_bounds a (block p) (block-pos p))),
  (λ h.
      (nat_beq_iff (a / block p) (p.addr / block p)).1
        (quotient a (block p) (p.addr / block p) h.0 h.1)),
)

masked_quotient : (p : Prefix) → p.addr / block p * block p / block p ≡ p.addr / block p
masked_quotient p = mul_div (block p) (p.addr / block p) (block-pos p)

pub masked-masked : (p : Prefix) → masked (masked p) ≡ masked p
unfolding masked
masked-masked p = ap (λ (q : ℕ). record p { addr = q * block p }) (masked_quotient p)

pub contains-masked : (p : Prefix) (a : ℕ) → contains (masked p) a ≡ contains p a
unfolding contains masked
contains-masked p a = ap (nat_beq (a / block p)) (masked_quotient p)

pub contains-masked_self : (p : Prefix) → contains p (masked p).addr ≡ true
unfolding contains masked
contains-masked_self p = (nat_beq_iff _ _).1 (masked_quotient p)

pow-add : (m d : ℕ) → 2 ^ (m + d) ≡ 2 ^ m * 2 ^ d
pow-add m zero = rw (add-zero m) (omega arith)
pow-add m (suc d) =
    rw (add-suc m d, pow-suc 2 (m + d), pow-suc 2 d, pow-add m d) (mul_assoc (2 ^ m) (2 ^ d) 2)

-- A wider prefix is cut into blocks of the narrower one.
block-split : (p q : Prefix) → p.bits ≤ q.bits → (d : ℕ) × (block p ≡ block q * 2 ^ d)
block-split p q h = (
  (32 - p.bits) - (32 - q.bits),
  ap (λ (n : ℕ). 2 ^ n) (omega arith) ∙ pow-add (32 - q.bits) ((32 - p.bits) - (32 - q.bits)),
)

-- An address of both lies in blocks one of which holds the other.
pub contains_wider :
    (p q : Prefix) (a : ℕ)
    → p.bits ≤ q.bits
    → contains p a ≡ true
    → contains q a ≡ true
    → contains p (masked q).addr ≡ true
unfolding contains masked
contains_wider p q a h inp inq = (nat_beq_iff _ _).1 (
    q.addr / block q * block q / block p
    ≡⟨ ap (λ (n : ℕ). q.addr / block q * block q / n) (block-split p q h).1 ⟩
      q.addr / block q * block q / (block q * 2 ^ d)
    ≡⟨ sym (div-div-eq-div-mul (q.addr / block q * block q) (block q) (2 ^ d)) ⟩
      q.addr / block q * block q / block q / 2 ^ d
    ≡⟨ ap (λ (n : ℕ). n / 2 ^ d) (masked_quotient q ∙ sym ((nat_beq_iff _ _).0 inq)) ⟩
      a / block q / 2 ^ d
    ≡⟨ div-div-eq-div-mul a (block q) (2 ^ d) ⟩ a / (block q * 2 ^ d)
    ≡⟨ ap (λ (n : ℕ). a / n) (sym (block-split p q h).1) ⟩ a / block p
    ≡⟨ (nat_beq_iff _ _).0 inp ⟩ p.addr / block p ∎)
  where
    d : ℕ
    d = (block-split p q h).0

pub bits-masked : (p : Prefix) → (masked p).bits ≡ p.bits
unfolding masked
bits-masked p = refl
