-- ===== src/Model/Validation.antt =====
-- internal/model/validation.go and operation_payload.go: what each kind of resource must satisfy
-- by itself. The checks stand in the order of the source, and an error names its field.
pub mod Address
pub mod Policy
pub mod Whole
use proxmox_ovn.Prelude.{
  ℕ, Bool, true, false, not, ◌&&◌, ◌||◌, List, [], ◌∷◌, ℤ, pos, negsuc, ltb_ℤ, ltb, leb, ◌==◌,
  int_eq, length, all, if◌then◌else◌, Option, none, some,
}
use proxmox_ovn.Text.{Text, text, text_eq, is_empty, trim_space, trim_suffix, split, to_lower}
use proxmox_ovn.Result.{Check, ok, err, Error, invalid, ◌>>=◌, ◌>>◌, guard, refuse, or_fail}
use proxmox_ovn.Model.Patterns.{is_name, is_dns_label}

-- validateName
unfoldable pub validate_name : Text → Text → Check
validate_name field value = guard (is_name value) (invalid field)

-- required
unfoldable pub required : Text → Text → Check
required field value = refuse (is_empty (trim_space value)) (invalid field)

-- validateDNSDomain
unfoldable pub validate_dns_domain : Text → Text → Check
validate_dns_domain field value = do
  let domain = trim_suffix b'.' value
  refuse (is_empty domain || ltb 253 (length domain)) (invalid field)
  guard (all is_dns_label (split b'.' domain)) (invalid field)

-- a < b || b' < a on Go integers
abbrev pub outside : ℤ → ℤ → ℤ → Bool
outside low high n = ltb_ℤ n low || ltb_ℤ high n

-- if value != "" { check }
abbrev pub unless_empty : Text → Check → Check
unless_empty value check = if is_empty value then ok tt else check

-- The parse succeeds; what it gives is not used.
abbrev pub parses {ℓ} : {A : Type ℓ} → Option A → Error → Check
parses none e = err e
parses (some a) e = ok tt
