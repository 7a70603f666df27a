-- ===== src/Netip/Bits.antt =====
-- `|` with a mask of low bits that the other number does not use is a sum, at every width.
use Prim.Native.Nat.{max, digits, bit_or, bit_or-bitwise}
use native.Mathlib.Nat.{pow-suc}
use proxmox_ovn.Prelude.{ℕ, zero, suc, ◌+◌, ◌-◌, ◌*◌, ◌/◌, ◌%◌, ◌^◌, ◌≤◌, ◌<◌, ◌≡◌, refl, ap, arith}

abbrev or_digits : ℕ → ℕ → ℕ → ℕ
or_digits n a b = digits (λ b. b) max n a b

or_digits_fuel : (n m a b : ℕ) → a ≤ m → a ≤ n → or_digits n a b ≡ or_digits m a b
or_digits_fuel zero zero a b p q = refl
or_digits_fuel zero (suc m) zero b p q = refl
or_digits_fuel zero (suc m) (suc a) b p q = absurd (omega arith)
or_digits_fuel (suc n) zero zero b p q = refl
or_digits_fuel (suc n) zero (suc a) b p q = absurd (omega arith)
or_digits_fuel (suc n) (suc m) zero b p q = refl
or_digits_fuel (suc n) (suc m) (suc a) b p q =
    omega (arith, or_digits_fuel n m (suc a / 2) (b / 2) (omega arith) (omega arith))

zero-bit_or : (b : ℕ) → bit_or 0 b ≡ b
zero-bit_or b = bit_or-bitwise 0 b

bit_or_step : (a b : ℕ) → bit_or a b ≡ bit_or (a / 2) (b / 2) * 2 + max (a % 2) (b % 2)
bit_or_step zero b = omega (arith, zero-bit_or b, zero-bit_or (b / 2))
bit_or_step (suc a) b = omega (
  arith,
  bit_or-bitwise (suc a) b,
  bit_or-bitwise (suc a / 2) (b / 2),
  or_digits_fuel a (suc a / 2) (suc a / 2) (b / 2) (omega arith) (omega arith),
)

bit_or-zero_fuel : (n a : ℕ) → a ≤ n → bit_or a 0 ≡ a
bit_or-zero_fuel n zero h = refl
bit_or-zero_fuel zero (suc a) h = absurd (omega arith)
bit_or-zero_fuel (suc n) (suc a) h =
    omega (arith, bit_or_step (suc a) 0, bit_or-zero_fuel n (suc a / 2) (omega arith))

pub pow_pos : (h : ℕ) → 0 < 2 ^ h
pow_pos zero = omega arith
pow_pos (suc h) = omega (arith, pow-suc 2 h, pow_pos h)

mul-pow-suc : (q h : ℕ) → q * 2 ^ suc h ≡ q * 2 ^ h + q * 2 ^ h
mul-pow-suc q h = omega (arith, ap (λ (t : ℕ). q * t) (pow-suc 2 h))

-- The host bits of a network address are zero, so the mask adds them.
pub bit_or-mask : (h q : ℕ) → bit_or (q * 2 ^ h) (2 ^ h - 1) ≡ q * 2 ^ h + (2 ^ h - 1)
bit_or-mask zero q = ground (arith, bit_or-zero_fuel q q)
bit_or-mask (suc h) q = ground (
  arith,
  pow-suc 2 h,
  pow_pos h,
  mul-pow-suc q h,
  bit_or_step (q * 2 ^ suc h) (2 ^ suc h - 1),
  bit_or-mask h q,
)

pub pow_mono : (h k : ℕ) → h ≤ k → 2 ^ h ≤ 2 ^ k
pow_mono zero k le = omega (arith, pow_pos k)
pow_mono (suc h) zero le = absurd (omega arith)
pow_mono (suc h) (suc k) le = omega (arith, pow-suc 2 h, pow-suc 2 k, pow_mono h k (omega arith))
