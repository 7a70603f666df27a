-- ===== src/Prelude/Int.antt =====
-- Go's `int64` and `int`: integers between -2^63 and 2^63 - 1. `negsuc n` is -(n + 1).
use Prim.Native.Nat.{ℕ, zero, suc, ◌-◌, ◌^◌}
use mathlib.Core.Path.{◌≡◌}
use mathlib.Core.Logic.{◌↔◌}
use mathlib.Core.Bool.{Bool, true, false}
use native.Mathlib.Omega.{arith}
use proxmox_ovn.Prelude.Tests.{ltb, nat_beq, if◌then◌else◌}
use proxmox_ovn.Prelude.Equality.{Eq}

pub data ℤ : Type 0 where
  pos : ℕ → ℤ
  negsuc : ℕ → ℤ

abbrev pub max_int64 : ℕ
max_int64 = 2 ^ 63 - 1

abbrev ℤ_beq : ℤ → ℤ → Bool
ℤ_beq (pos a) (pos b) = nat_beq a b
ℤ_beq (negsuc a) (negsuc b) = nat_beq a b
ℤ_beq (pos a) (negsuc b) = false
ℤ_beq (negsuc a) (pos b) = false

pub ℤ_beq_iff : (a b : ℤ) → (ℤ_beq a b ≡ true) ↔ (a ≡ b)
ℤ_beq_iff a b = ground arith

instance abbrev pub int_eq : Eq ℤ
int_eq = record { test = ℤ_beq; decides = ℤ_beq_iff }

-- a < b
abbrev pub ltb_ℤ : ℤ → ℤ → Bool
ltb_ℤ (pos a) (pos b) = ltb a b
ltb_ℤ (negsuc a) (negsuc b) = ltb b a
ltb_ℤ (pos a) (negsuc b) = false
ltb_ℤ (negsuc a) (pos b) = true

-- x++ on an int64: the largest value wraps to the least.
abbrev pub increment : ℤ → ℤ
increment (pos n) = if nat_beq n max_int64 then negsuc max_int64 else pos (suc n)
increment (negsuc zero) = pos 0
increment (negsuc (suc n)) = negsuc n

pub ltb_ℤ_irrefl : (a : ℤ) → ltb_ℤ a a ≡ false
ltb_ℤ_irrefl (pos n) = ground arith
ltb_ℤ_irrefl (negsuc n) = ground arith

pub ltb_ℤ_asym : (a b : ℤ) → ltb_ℤ a b ≡ true → ltb_ℤ b a ≡ false
ltb_ℤ_asym a b h = ground arith
