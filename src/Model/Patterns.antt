-- ===== src/Model/Patterns.antt =====
-- The patterns of internal/model/validation.go as functions, requested_chassis.go, and MAC
-- addresses (net.ParseMAC where it gives six bytes).
pub mod Chassis
use proxmox_ovn.Prelude.{
  ℕ, ◌+◌, ◌-◌, ◌*◌, ◌/◌, ◌%◌, Bool, true, false, not, ◌&&◌, ◌||◌, List, [], ◌∷◌, ◌≡◌, refl, Option,
  none, some, ltb, leb, nat_beq, if◌then◌else◌, length, all, any, ◌==◌,
}
use proxmox_ovn.Text.{Text, text, text_eq, is_empty, trim_space, split}
use proxmox_ovn.Netip.{is_digit}

abbrev is_alphanumeric : ℕ → Bool
is_alphanumeric c = (leb b'a' c && leb c b'z') || (leb b'A' c && leb c b'Z') || is_digit c

abbrev is_name_byte : ℕ → Bool
is_name_byte c =
    is_alphanumeric c || nat_beq c b'_' || nat_beq c b'.' || nat_beq c b':' || nat_beq c b'-'

-- namePattern: ^[A-Za-z0-9][A-Za-z0-9_.:-]{0,126}$
unfoldable pub is_name : Text → Bool
is_name [] = false
is_name (c ∷ s) = is_alphanumeric c && all is_name_byte s && leb (length s) 126

-- nicPattern: ^net[0-9]+$
unfoldable pub is_nic : Text → Bool
is_nic (c ∷ d ∷ e ∷ digit ∷ s) =
    nat_beq c b'n' && nat_beq d b'e' && nat_beq e b't' && is_digit digit && all is_digit s
is_nic _ = false

ends_alphanumeric : Text → Bool
ends_alphanumeric [] = true
ends_alphanumeric (c ∷ []) = is_alphanumeric c
ends_alphanumeric (c ∷ d ∷ s) = ends_alphanumeric (d ∷ s)

-- dnsLabelPattern: ^[A-Za-z0-9](?:[A-Za-z0-9-]{0,61}[A-Za-z0-9])?$
unfoldable pub is_dns_label : Text → Bool
unfolding ends_alphanumeric
is_dns_label [] = false
is_dns_label (c ∷ s) =
    is_alphanumeric c
    && all (λ d. is_alphanumeric d || nat_beq d b'-') s
    && leb (length s) 62
    && ends_alphanumeric s

-- safeChassisID
unfoldable pub safe_chassis_id : Text → Bool
safe_chassis_id [] = false
safe_chassis_id (c ∷ s) =
    leb (length (c ∷ s)) 255 && not (nat_beq c b'-') && all is_name_byte (c ∷ s)

-- The loop of ParseRequestedChassis: `seen` holds the identifiers so far.
unfoldable pub distinct_safe : List Text → List Text → Bool
distinct_safe seen [] = true
distinct_safe seen (part ∷ parts) =
    safe_chassis_id part
    && not (any (λ other. other == part) seen)
    && distinct_safe (part ∷ seen) parts

-- ParseRequestedChassis
unfoldable pub parse_requested_chassis : Text → Option (List Text)
unfolding distinct_safe
parse_requested_chassis value =
    let parts = split b',' value in
    if is_empty value
    then some []
    else if not (trim_space value == value)
    then none
    else if ltb 2 (length parts)
    then none
    else if distinct_safe [] parts
    then some parts
    else none

-- RequestedChassisContains
unfoldable pub requested_chassis_contains : Text → Text → Bool
requested_chassis_contains value chassis = elim (parse_requested_chassis value) [
  | none ↦ false
  | some parts ↦ any (λ part. part == chassis) parts
]

hex_digit : ℕ → Option ℕ
hex_digit c =
    if is_digit c
    then some (c - b'0')
    else if leb b'a' c && leb c b'f'
    then some (c - b'a' + 10)
    else if leb b'A' c && leb c b'F'
    then some (c - b'A' + 10)
    else none

hex_pair : ℕ → ℕ → Option ℕ
unfolding hex_digit
hex_pair c d = elim (hex_digit c) [
  | none ↦ none
  | some high ↦ elim (hex_digit d) [ none ↦ none | some low ↦ some (high * 16 + low) ]
]

prepend : Option ℕ → Option (List ℕ) → Option (List ℕ)
prepend none more = none
prepend (some octet) none = none
prepend (some octet) (some octets) = some (octet ∷ octets)

-- aa:bb:... with one separator
colon_octets : ℕ → Text → Option (List ℕ)
unfolding hex_pair prepend
colon_octets sep (c ∷ d ∷ []) = prepend (hex_pair c d) (some [])
colon_octets sep (c ∷ d ∷ e ∷ s) =
    let rest = colon_octets sep s in if nat_beq e sep then prepend (hex_pair c d) rest else none
colon_octets sep _ = none

-- aabb.ccdd.eeff
dot_octets : Text → Option (List ℕ)
unfolding hex_pair prepend
dot_octets (a ∷ b ∷ c ∷ d ∷ []) = prepend (hex_pair a b) (prepend (hex_pair c d) (some []))
dot_octets (a ∷ b ∷ c ∷ d ∷ e ∷ s) =
    let rest = dot_octets s in
    if nat_beq e b'.' then prepend (hex_pair a b) (prepend (hex_pair c d) rest) else none
dot_octets _ = none

-- net.ParseMAC, where the result has six bytes: 17 bytes with ':' or '-', or 14 with dots
unfoldable pub parse_mac : Text → Option (List ℕ)
unfolding colon_octets dot_octets
parse_mac (a ∷ b ∷ sep ∷ s) =
    let n = length (a ∷ b ∷ sep ∷ s) in
    if nat_beq sep b':' || nat_beq sep b'-'
    then (if nat_beq n 17 then colon_octets sep (a ∷ b ∷ sep ∷ s) else none)
    else if nat_beq n 14
    then dot_octets (a ∷ b ∷ sep ∷ s)
    else none
parse_mac _ = none

hex_byte : ℕ → ℕ
hex_byte n = if ltb n 10 then b'0' + n else b'a' + (n - 10)

-- HardwareAddr.String, in lower case
unfoldable pub mac_string : List ℕ → Text
unfolding hex_byte
mac_string [] = []
mac_string (o ∷ []) = hex_byte (o / 16) ∷ hex_byte (o % 16) ∷ []
mac_string (o ∷ p ∷ os) = hex_byte (o / 16) ∷ hex_byte (o % 16) ∷ b':' ∷ mac_string (p ∷ os)

mac_dots : parse_mac (text "0011.22AA.bbFF") ≡ parse_mac (text "00:11:22:aa:BB:ff")
unfolding parse_mac
mac_dots = refl
