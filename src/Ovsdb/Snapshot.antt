-- ===== src/Ovsdb/Snapshot.antt =====
-- The part of a decoded snapshot that the codec reads (codec.go): which UUID a stored resource has,
-- and which id a UUID stands for. And the wire formats of Go's library.
use proxmox_ovn.Prelude.{
  ℕ, Bool, true, false, ◌≡◌, ◌&&◌, List, [], ◌∷◌, Option, none, some, ℤ, ◌==◌, ◌<◌, ◌*◌, ◌^◌, leb,
  all, if◌then◌else◌,
}
use proxmox_ovn.Text.{Text, text_eq, is_empty}
use proxmox_ovn.Platform.{Platform}
use proxmox_ovn.Model.Kind.{Kind}
use proxmox_ovn.Model.Resource.{Resource, IpRange, StaticRoute}

pub record StoredResource : Type 0 where
  pub uuid : Text
  pub resource : Resource

pub record StoredResult : Type 0 where
  pub fingerprint_bytes : ℕ
  pub resource : Resource
  pub deleted : Bool

-- `snapshot`; each map of the source is an association list.
pub record Snapshot : Type 0 where
  pub epoch : ℤ
  pub has_lock : Bool
  pub resources : Kind → List (Text × StoredResource)
  pub uuid_to_id : Kind → List (Text × Text)
  pub idempotency : List (Text × StoredResult)

abbrev pub find {ℓ} : {A : Type ℓ} → Text → List (Text × A) → Option A
find key [] = none
find key ((k, value) ∷ pairs) = let rest = find key pairs in if k == key then some value else rest

-- The two maps belong together: the UUID of a stored resource is not empty and stands for its id.
abbrev pub IsConsistent : Snapshot → Type 0
IsConsistent refs =
    (kind : Kind) (id : Text) (entry : StoredResource)
    → find id (refs.resources kind) ≡ some entry
    → (is_empty entry.uuid ≡ false) × (find entry.uuid (refs.uuid_to_id kind) ≡ some id)

-- time.RFC3339Nano in UTC, encoding/json and encoding/hex, beyond what the model's validation needs.
pub record Wire : Type 0 where
  pub platform : Platform
  pub format_time : ℕ → Text
  pub parse_time : Text → Option ℕ
  -- a digest of 32 bytes as a number; `none` where the text is no hex of 32 bytes
  pub encode_digest : ℕ → Text
  pub decode_digest : Text → Option ℕ
  -- json.Unmarshal into a new resource of the kind
  pub unmarshal_resource : Kind → Text → Option Resource
  pub marshal_range : IpRange → Text
  pub unmarshal_range : Text → Option IpRange
  pub marshal_texts : List Text → Text
  pub unmarshal_texts : Text → Option (List Text)
  pub marshal_routes : List StaticRoute → Text
  pub unmarshal_routes : Text → Option (List StaticRoute)

-- 10000-01-01, in nanoseconds from Go's zero time: later years have no RFC 3339 text.
abbrev pub year_10000 : ℕ
year_10000 = 315537897600 * 10 ^ 9

abbrev pub is_ascii : Text → Bool
is_ascii s = all (λ c. leb c 127) s

abbrev pub is_ascii_range : IpRange → Bool
is_ascii_range r = is_ascii r.start && is_ascii r.end

abbrev pub is_ascii_route : StaticRoute → Bool
is_ascii_route r = is_ascii r.destination && is_ascii r.next_hop

-- What Go documents of these formats: a time before the year 10000 is read back with its
-- nanoseconds, and JSON reads back what it wrote of ASCII texts. No text is empty.
pub record IsDocumented (wire : Wire) : Type 0 where
  pub time : (t : ℕ) → t < year_10000 → wire.parse_time (wire.format_time t) ≡ some t
  pub time_written : (t : ℕ) → is_empty (wire.format_time t) ≡ false
  pub range :
      (r : IpRange) → is_ascii_range r ≡ true → wire.unmarshal_range (wire.marshal_range r) ≡ some r
  pub texts :
      (ss : List Text)
      → all is_ascii ss ≡ true
      → wire.unmarshal_texts (wire.marshal_texts ss) ≡ some ss
  pub texts_written : (ss : List Text) → is_empty (wire.marshal_texts ss) ≡ false
  pub routes :
      (rs : List StaticRoute)
      → all is_ascii_route rs ≡ true
      → wire.unmarshal_routes (wire.marshal_routes rs) ≡ some rs
  pub routes_written : (rs : List StaticRoute) → is_empty (wire.marshal_routes rs) ≡ false
