-- ===== src/Netip.antt =====
-- What the program uses of Go's net/netip for IPv4: parsing and printing addresses and prefixes,
-- Masked, Contains, Next and Compare. An address is its 32-bit number. Where the source asks
-- `err != nil || !addr.Is4()` the parsers below answer `none`.
pub mod Bits
pub mod Laws
use proxmox_ovn.Prelude.{
  ℕ, zero, suc, ◌+◌, ◌-◌, ◌*◌, ◌/◌, ◌%◌, ◌^◌, Bool, true, false, ◌&&◌, ◌||◌, List, [], ◌∷◌, ◌++◌,
  Option, none, some, ltb, leb, nat_beq, if◌then◌else◌, length,
}
use proxmox_ovn.Text.{Text, text}

abbrev pub is_digit : ℕ → Bool
is_digit c = leb b'0' c && leb c b'9'

-- parseIPv4Fields: `value` and `digits` are of the current octet, `position` counts the octets
-- before it and `sum` is their number.
unfoldable pub scan_ipv4 : Text → ℕ → ℕ → ℕ → ℕ → Option ℕ
scan_ipv4 [] value digits position sum = if ltb position 3 then none else some (sum * 256 + value)
scan_ipv4 (c ∷ s) value digits position sum =
    let next_value = value * 10 + (c - b'0') in
    let more = scan_ipv4 s next_value (digits + 1) position sum in
    let next = scan_ipv4 s 0 0 (position + 1) (sum * 256 + value) in
    if is_digit c
    then (if nat_beq digits 1 && nat_beq value 0
        then none
        else if ltb 255 next_value
        then none
        else more)
    else if nat_beq c b'.'
    then (if nat_beq digits 0 || nat_beq (length s) 0
        then none
        else if nat_beq position 3
        then none
        else next)
    else none

-- ParseAddr, where the address is IPv4
unfoldable pub parse_addr : Text → Option ℕ
unfolding scan_ipv4
parse_addr s = scan_ipv4 s 0 0 0 0

-- The decimal digits of an octet.
unfoldable pub octet : ℕ → Text
octet n =
    if ltb n 10
    then (b'0' + n) ∷ []
    else if ltb n 100
    then (b'0' + n / 10) ∷ (b'0' + n % 10) ∷ []
    else (b'0' + n / 100) ∷ (b'0' + n / 10 % 10) ∷ (b'0' + n % 10) ∷ []

-- Addr.String
unfoldable pub addr_string : ℕ → Text
unfolding octet
addr_string a =
    octet (a / 2 ^ 24 % 256)
    ++ (b'.'
        ∷ (octet (a / 2 ^ 16 % 256)
            ++ (b'.' ∷ (octet (a / 2 ^ 8 % 256) ++ (b'.' ∷ octet (a % 256))))))

pub record Prefix : Type 0 where
  pub addr : ℕ
  pub bits : ℕ

-- What stands before and behind the last slash.
last_slash : Text → Option (Text × Text)
last_slash [] = none
last_slash (c ∷ s) = elim (last_slash s) [
  | some (before, behind) ↦ some (c ∷ before, behind)
  | none ↦ if nat_beq c b'/' then some ([], s) else none
]

-- strconv.Atoi on digits alone
scan_number : Text → ℕ → Option ℕ
scan_number [] n = some n
scan_number (c ∷ s) n =
    let rest = scan_number s (n * 10 + (c - b'0')) in if is_digit c then rest else none

-- No sign, and no leading zero in front of other digits.
parse_bits : Text → Option ℕ
unfolding scan_number
parse_bits [] = none
parse_bits (c ∷ []) = scan_number (c ∷ []) 0
parse_bits (c ∷ d ∷ s) = if ltb c b'1' || ltb b'9' c then none else scan_number (c ∷ d ∷ s) 0

-- ParsePrefix, where the address is IPv4
unfoldable pub parse_prefix : Text → Option Prefix
unfolding last_slash parse_bits parse_addr
parse_prefix s = elim (last_slash s) [
  | none ↦ none
  | some (before, behind) ↦ elim (parse_addr before) [
    | none ↦ none
    | some a ↦ elim (parse_bits behind) [
      | none ↦ none
      | some n ↦ if ltb 32 n then none else some (record { addr = a; bits = n })
    ]
  ]
]

-- The number of addresses of a prefix.
abbrev pub block : Prefix → ℕ
block p = 2 ^ (32 - p.bits)

-- Prefix.Masked
unfoldable pub masked : Prefix → Prefix
masked p = record p { addr = p.addr / block p * block p }

-- Prefix.Contains: the two agree once the host bits are shifted out
unfoldable pub contains : Prefix → ℕ → Bool
contains p a = nat_beq (a / block p) (p.addr / block p)

-- Addr.Next; past the last address the result is the invalid one
unfoldable pub next : ℕ → Option ℕ
next a = if nat_beq (a + 1) (2 ^ 32) then none else some (a + 1)

-- Prefix.String
unfoldable pub prefix_string : Prefix → Text
unfolding addr_string octet
prefix_string p = addr_string p.addr ++ (b'/' ∷ octet p.bits)

abbrev ten_net : Prefix
ten_net = record { addr = 10 * 2 ^ 24; bits = 24 }
