-- ===== src/Examples/Data/Wires.antt =====
-- Formats that keep what Go documents of RFC 3339 and JSON, and a snapshot of a few rows.
use proxmox_ovn.Prelude.{
  ℕ, zero, suc, ◌≡◌, refl, sym, ap, ◌∙◌, inl, inr, List, [], ◌∷◌, ◌++◌, pos, false, map, Option,
  none, some, some_inj, Bool-cases,
}
use proxmox_ovn.Text.{Text, text, text_beq, text_beq_iff}
use proxmox_ovn.Model.Kind.{Kind}
use proxmox_ovn.Model.Resource.{IpRange, StaticRoute}
use proxmox_ovn.Ovsdb.Snapshot.{Wire, IsDocumented, Snapshot, StoredResource, IsConsistent, find}
use proxmox_ovn.Examples.Data.Networks.{platform, blue_row}

-- Texts, each closed by a zero; their bytes are moved up by one.
abbrev joined : List Text → Text
joined [] = []
joined (s ∷ ss) = map suc s ++ (0 ∷ joined ss)

abbrev onto_first : ℕ → List Text → List Text
onto_first c [] = (c ∷ []) ∷ []
onto_first c (s ∷ ss) = (c ∷ s) ∷ ss

abbrev separated : Text → List Text
separated [] = []
separated (zero ∷ t) = [] ∷ separated t
separated (suc c ∷ t) = onto_first c (separated t)

separated-first : (s t : Text) → separated (map suc s ++ (0 ∷ t)) ≡ s ∷ separated t
separated-first [] t = refl
separated-first (c ∷ s) t = rw (separated-first s t) refl

separated-joined : (ss : List Text) → separated (joined ss) ≡ ss
separated-joined [] = refl
separated-joined (s ∷ ss) = rw (separated-first s (joined ss), separated-joined ss) refl

abbrev after_first : Text → Option (List Text)
after_first [] = none
after_first (c ∷ t) = some (separated t)

abbrev as_range : List Text → Option IpRange
as_range (s ∷ t ∷ []) = some (record { start = s; end = t })
as_range _ = none

abbrev flattened : List StaticRoute → List Text
flattened [] = []
flattened (r ∷ rs) = r.destination ∷ r.next_hop ∷ flattened rs

abbrev in_pairs : List Text → List StaticRoute
in_pairs (s ∷ t ∷ ss) = record { destination = s; next_hop = t } ∷ in_pairs ss
in_pairs _ = []

in_pairs-flattened : (rs : List StaticRoute) → in_pairs (flattened rs) ≡ rs
in_pairs-flattened [] = refl
in_pairs-flattened (r ∷ rs) = rw (in_pairs-flattened rs) refl

abbrev first_byte : Text → Option ℕ
first_byte [] = none
first_byte (c ∷ t) = some c

abbrev pub plain_wire : Wire
plain_wire = record {
  platform = platform;
  format_time = λ t. t ∷ [];
  parse_time = first_byte;
  encode_digest = λ n. n ∷ [];
  decode_digest = first_byte;
  unmarshal_resource = λ kind s. some (blue_row);
  marshal_range = λ r. joined (r.start ∷ r.end ∷ []);
  unmarshal_range = λ s. as_range (separated s);
  marshal_texts = λ ss. b'[' ∷ joined ss;
  unmarshal_texts = after_first;
  marshal_routes = λ rs. b'[' ∷ joined (flattened rs);
  unmarshal_routes = λ s. elim (after_first s) [ none ↦ none | some ss ↦ some (in_pairs ss) ];
}

pub plain_wire-IsDocumented : IsDocumented plain_wire
plain_wire-IsDocumented = record {
  time = λ t h. refl;
  time_written = λ t. refl;
  range = λ r h. ap as_range (separated-joined (r.start ∷ r.end ∷ []));
  texts = λ ss h. ap some (separated-joined ss);
  texts_written = λ ss. refl;
  routes = λ rs h. ap some (ap in_pairs (separated-joined (flattened rs)) ∙ in_pairs-flattened rs);
  routes_written = λ rs. refl;
}

-- A row whose UUID is its id after a letter.
abbrev entry_of : Text → StoredResource
entry_of id = record { uuid = b'u' ∷ id; resource = blue_row }

abbrev entries : List Text → List (Text × StoredResource)
entries ids = map (λ id. (id, entry_of id)) ids

abbrev known_uuids : List Text → List (Text × Text)
known_uuids ids = map (λ id. (b'u' ∷ id, id)) ids

find-entries :
    (ids : List Text) (id : Text) (entry : StoredResource)
    → find id (entries ids) ≡ some entry
    → (entry ≡ entry_of id) × (find (b'u' ∷ id) (known_uuids ids) ≡ some id)
unfolding text_beq
find-entries [] id entry h = cc
find-entries (k ∷ ids) id entry h = elim (Bool-cases (text_beq k id)) [
  | inl same ↦
      let e = (text_beq_iff k id).0 same in
      (sym (some_inj (rw same at h)) ∙ ap entry_of e, rw same (ap some e))
  | inr other ↦ rw other (find-entries ids id entry (rw other at h))
]

abbrev ids_of : Kind → List Text
ids_of Kind.network = text "n" ∷ []
ids_of Kind.subnet = text "s" ∷ text "t" ∷ []
ids_of Kind.security_group = text "g" ∷ text "h" ∷ []
ids_of Kind.node = text "a" ∷ []
ids_of _ = []

abbrev pub few_rows : Snapshot
few_rows = record {
  epoch = pos 0;
  has_lock = false;
  idempotency = [];
  resources = λ kind. entries (ids_of kind);
  uuid_to_id = λ kind. known_uuids (ids_of kind);
}

pub few_rows-IsConsistent : IsConsistent few_rows
few_rows-IsConsistent kind id entry h =
    let (e, there) = find-entries (ids_of kind) id entry h in rw e (refl, there)
