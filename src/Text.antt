-- ===== src/Text.antt =====
-- Go strings as the lists of their bytes, and what the program uses of package strings.
pub mod Order
use Prim.Native.Char.{code}
use Prim.Native.String.{String}
use proxmox_ovn.Prelude.{
  ℕ, zero, suc, ◌+◌, ◌/◌, ◌%◌, ℤ, pos, negsuc, ltb, ◌≡◌, ◌↔◌, Bool, true, false, ◌&&◌, ◌||◌, List,
  [], ◌∷◌, map, arith, leb, nat_beq, if◌then◌else◌, Eq, ◌==◌,
}

abbrev pub Text : Type 0
Text = List ℕ

-- The bytes of an ASCII literal.
abbrev pub text : String → Text
text String.[] = []
text (String.◌∷◌ c s) = code c ∷ text s

unfoldable pub text_beq : Text → Text → Bool
text_beq [] [] = true
text_beq [] (d ∷ t) = false
text_beq (c ∷ s) [] = false
text_beq (c ∷ s) (d ∷ t) = nat_beq c d && text_beq s t

pub text_beq_iff : (s t : Text) → (text_beq s t ≡ true) ↔ (s ≡ t)
unfolding text_beq
text_beq_iff [] [] = ground arith
text_beq_iff [] (d ∷ t) = ground arith
text_beq_iff (c ∷ s) [] = ground arith
text_beq_iff (c ∷ s) (d ∷ t) = ground (arith, text_beq_iff s t)

instance abbrev pub text_eq : Eq Text
text_eq = record { test = text_beq; decides = text_beq_iff }

-- s == ""
abbrev pub is_empty : Text → Bool
is_empty [] = true
is_empty (c ∷ s) = false

lower_byte : ℕ → ℕ
lower_byte c = if leb b'A' c && leb c b'Z' then c + 32 else c

-- strings.ToLower on ASCII
unfoldable pub to_lower : Text → Text
unfolding lower_byte
to_lower = map lower_byte

-- strings.EqualFold on ASCII
unfoldable pub equal_fold : Text → Text → Bool
unfolding to_lower
equal_fold s t = to_lower s == to_lower t

-- s < t, by bytes
unfoldable pub text_lt : Text → Text → Bool
text_lt [] [] = false
text_lt [] (d ∷ t) = true
text_lt (c ∷ s) [] = false
text_lt (c ∷ s) (d ∷ t) = ltb c d || (nat_beq c d && text_lt s t)

abbrev is_space : ℕ → Bool
is_space c = nat_beq c b' ' || (leb 9 c && leb c 13)

abbrev trim_left : Text → Text
trim_left [] = []
trim_left (c ∷ s) = let rest = trim_left s in if is_space c then rest else c ∷ s

abbrev trim_right : Text → Text
trim_right [] = []
trim_right (c ∷ s) = let rest = trim_right s in if is_space c && is_empty rest then [] else c ∷ rest

-- strings.TrimSpace on ASCII
unfoldable pub trim_space : Text → Text
trim_space s = trim_right (trim_left s)

-- strings.TrimSuffix(s, c) for one byte
unfoldable pub trim_suffix : ℕ → Text → Text
trim_suffix d [] = []
trim_suffix d (c ∷ s) = if nat_beq c d && is_empty s then [] else c ∷ trim_suffix d s

unfoldable pub add_to_first : ℕ → List Text → List Text
add_to_first c [] = (c ∷ []) ∷ []
add_to_first c (part ∷ parts) = (c ∷ part) ∷ parts

-- strings.Split(s, sep) for one byte
unfoldable pub split : ℕ → Text → List Text
unfolding add_to_first
split sep [] = [] ∷ []
split sep (c ∷ s) =
    let parts = split sep s in if nat_beq c sep then [] ∷ parts else add_to_first c parts

decimal_digits : ℕ → ℕ → Text → Text
decimal_digits zero n acc = acc
decimal_digits (suc fuel) n acc =
    let digits = (b'0' + n % 10) ∷ acc in
    let more = decimal_digits fuel (n / 10) digits in if ltb n 10 then digits else more

-- fmt's %d; n + 1 rounds are enough, since each divides by ten
unfoldable pub decimal : ℤ → Text
unfolding decimal_digits
decimal (pos n) = decimal_digits (suc n) n []
decimal (negsuc n) = b'-' ∷ decimal_digits (suc (suc n)) (suc n) []
