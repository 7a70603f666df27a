-- ===== src/Platform.antt =====
-- What Go's standard library computes for the program beyond texts, IPv4 and MAC addresses:
-- the public JSON of a resource, SHA-256 digests, canonical JSON, and netip's IPv6 side.
use proxmox_ovn.Prelude.{ℕ, Option}
use proxmox_ovn.Text.{Text}
use proxmox_ovn.Model.Resource.{Resource}

pub record Platform : Type 0 where
  -- json.Marshal of a resource, which leaves an operation's payload out
  pub marshal : Resource → Text
  -- sha256.Sum256, as a number
  pub sha256 : Text → ℕ
  -- json.Marshal of the decoded object; `none` where the text is not one JSON object
  pub canonical_json : Text → Option Text
  -- netip.ParseAddr and String for an IPv6 text; `none` where it is none
  pub ipv6_addr_string : Text → Option Text
  -- netip.ParsePrefix, Masked and String for an IPv6 text
  pub ipv6_prefix_string : Text → Option Text
