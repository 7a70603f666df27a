-- ===== src/Ovsdb/RoundTrip/Lists.antt =====
-- The round trip of the sets, maps and external ids of internal/ovsdbstore/codec.go.
use proxmox_ovn.Prelude.{
  ap, sort-sort, ◌≡◌, refl, sym, inl, inr, Bool, true, false, List, [], ◌∷◌, map, Option, some,
  sort, all, and-true, In, ◌⊎◌, In-sort,
}
use proxmox_ovn.Text.{Text, text, text_eq, text_beq, text_beq_iff, text_lt, is_empty}
use proxmox_ovn.Ovsdb.RoundTrip.Ranges.{range_before-IsStrictOrder}
use proxmox_ovn.Result.{Error}
use proxmox_ovn.Model.Validation.Policy.{validate_operation_payload}
use proxmox_ovn.Model.Kind.{Kind}
use proxmox_ovn.Model.Resource.{IpRange, FixedIp}
use proxmox_ovn.Ovsdb.Outcome.{
  done, malformed, refused, ◌>>=◌, bind-done, done_inj, unless, or_failed, collect, checked,
}
use proxmox_ovn.Ovsdb.Snapshot.{Snapshot, IsConsistent, Wire, IsDocumented, is_ascii_range}
use proxmox_ovn.Ovsdb.Row.{
  Atom, Value, Row, set, atom_string, value_set, has_repeat, column, row_set, row_map,
  row_string_map,
}
use proxmox_ovn.Ovsdb.Fields.{
  encode_ip_ranges, decode_ip_ranges, range_before, uuid_of, id_of, encode_reference_set,
  decode_reference_set, fixed_ip_pair, fixed_ip_of, encode_fixed_ips, decode_fixed_ips,
  subnet_before, External, external, encode_string_map, encode_external_json, decode_external_json,
  encode_operation_payload, decode_operation_payload,
}
use proxmox_ovn.Ovsdb.RoundTrip.Parts.{
  collect-collect, collect-map, map-sort, id_of-uuid_of, row_string_set-encode_unique_string_set,
}

map_id {ℓ} : {A : Type ℓ} (xs : List A) → map (λ x. x) xs ≡ xs
map_id [] = refl
map_id (x ∷ xs) = rw (map_id xs) refl

module _ (refs : Snapshot) (consistent : IsConsistent refs) where
  pub decode_reference_set-encode_reference_set :
      (kind : Kind) (ids : List Text) (name : Text) (row : Row) (value : Value)
      → encode_reference_set refs kind ids ≡ done value
      → column name row ≡ some value
      → decode_reference_set refs kind name row ≡ done (sort text_lt ids)
  unfolding encode_reference_set decode_reference_set row_set value_set
  decode_reference_set-encode_reference_set kind ids name row value h there =
      let (u, one, e) =
        bind-done (unless (has_repeat ids) (refused Error.conflict))
          (λ _. collect (uuid_of refs kind) ids >>= λ keys. done (set keys)) h in
      let (keys, ek, e') =
        bind-done (collect (uuid_of refs kind) ids) (λ keys. done (set keys)) e in
      rw (there, row_set, ← done_inj e')
        (rw
          (collect-collect (uuid_of refs kind) (id_of refs kind) (λ id. id)
            (λ id a. id_of-uuid_of refs consistent kind id a) ids keys ek)
          (rw (map_id ids) refl))

  fixed_ip_of-fixed_ip_pair :
      (fixed : FixedIp) (pair : Atom × Atom)
      → fixed_ip_pair refs fixed ≡ done pair
      → fixed_ip_of refs pair ≡ done fixed
  unfolding atom_string
  fixed_ip_of-fixed_ip_pair fixed pair h =
      let (key, ek, e) =
        bind-done (uuid_of refs Kind.subnet fixed.subnet_id)
          (λ key. done (key, Atom.str fixed.address)) h in
      rw (← done_inj e) (rw (id_of-uuid_of refs consistent Kind.subnet fixed.subnet_id key ek) refl)

  pub decode_fixed_ips-encode_fixed_ips :
      (values : List FixedIp) (row : Row) (value : Value)
      → encode_fixed_ips refs values ≡ done value
      → column (text "fixed_ips") row ≡ some value
      → decode_fixed_ips refs row ≡ done (sort subnet_before values)
  unfolding encode_fixed_ips decode_fixed_ips row_map
  decode_fixed_ips-encode_fixed_ips values row value h there =
      let (u, one, e) =
        bind-done
          (unless (has_repeat (map (λ fixed. fixed.subnet_id) values)) (refused Error.conflict))
          (λ _. collect (fixed_ip_pair refs) values >>= λ pairs. done (Value.map pairs)) h in
      let (pairs, ep, e') =
        bind-done (collect (fixed_ip_pair refs) values) (λ pairs. done (Value.map pairs)) e in
      rw (there, row_map, ← done_inj e')
        (rw
          (collect-collect (fixed_ip_pair refs) (fixed_ip_of refs) (λ fixed. fixed)
            fixed_ip_of-fixed_ip_pair values pairs ep)
          (rw (map_id values) refl))

pub all-In :
    {A : Type 0} (p : A → Bool) (xs : List A) → all p xs ≡ true → (x : A) → In x xs → p x ≡ true
all-In p [] h x m = elim m [ ]
all-In p (y ∷ ys) h x (inl e) = rw (← e) (and-true (p y) (all p ys) h).0
all-In p (y ∷ ys) h x (inr m) = all-In p ys (and-true (p y) (all p ys) h).1 x m

module _ (wire : Wire) (documented : IsDocumented wire) where
  collect_ranges :
      (ranges : List IpRange)
      → ((r : IpRange) → In r ranges → is_ascii_range r ≡ true)
      → collect
          (λ value. or_failed (wire.unmarshal_range value) malformed)
          (map wire.marshal_range ranges)
        ≡ done ranges
  collect_ranges [] ascii = refl
  collect_ranges (r ∷ ranges) ascii =
      rw (documented.range r (ascii r (inl refl)))
        (rw (collect_ranges ranges (λ s m. ascii s (inr m))) refl)

  pub decode_ip_ranges-encode_ip_ranges :
      (ranges : List IpRange) (name : Text) (row : Row) (value : Value)
      → all is_ascii_range ranges ≡ true
      → encode_ip_ranges wire ranges ≡ done value
      → column name row ≡ some value
      → decode_ip_ranges wire name row ≡ done (sort range_before ranges)
  unfolding encode_ip_ranges decode_ip_ranges
  decode_ip_ranges-encode_ip_ranges ranges name row value ascii h there =
      let written = λ (a b : IpRange). text_lt (wire.marshal_range a) (wire.marshal_range b) in
      rw
        (row_string_set-encode_unique_string_set (map wire.marshal_range ranges) name row value h
          there)
        (rw (map-sort wire.marshal_range ranges) (
          rw
            (collect_ranges (sort written ranges)
              (λ r m. all-In is_ascii_range ranges ascii r (In-sort written ranges r m)))
            (ap done (sort-sort range_before range_before-IsStrictOrder written ranges))))

-- The map of external ids is read back pair by pair.
pub row_string_map-encode_string_map :
    (pairs : External) (name : Text) (row : Row)
    → column name row ≡ some (encode_string_map pairs)
    → row_string_map name row ≡ done pairs
unfolding row_string_map row_map encode_string_map
row_string_map-encode_string_map pairs name row there =
    rw (there, row_map)
      (collect-map (λ pair. (Atom.str pair.0, Atom.str pair.1)) _ pairs (λ pair. refl))

-- A list is written as nothing, where it is empty, or as its JSON under one key.
pub encode_external_json-cases :
    {A : Type 0} (marshal : List A → Text) (key : Text) (values : List A) (pairs : External)
    → encode_external_json marshal key values ≡ done pairs
    → ((values ≡ []) × (pairs ≡ [])) ⊎ (pairs ≡ (key, marshal values) ∷ [])
unfolding encode_external_json
encode_external_json-cases marshal key [] pairs h = inl (refl, sym (done_inj h))
encode_external_json-cases marshal key (x ∷ xs) pairs h =
    let (u, short, e) =
      bind-done (unless _ malformed) (λ _. done ((key, marshal (x ∷ xs)) ∷ [])) h in
    inr (sym (done_inj e))

-- A list is read back from the external ids it was written to.
pub decode_external_json-encode_external_json :
    {A : Type 0} (marshal : List A → Text) (unmarshal : Text → Option (List A)) (key : Text)
    (values : List A) (pairs : External)
    → is_empty (marshal values) ≡ false
    → unmarshal (marshal values) ≡ some values
    → encode_external_json marshal key values ≡ done pairs
    → decode_external_json unmarshal key pairs ≡ done values
unfolding decode_external_json external
decode_external_json-encode_external_json marshal unmarshal key values pairs full back h =
    elim (encode_external_json-cases marshal key values pairs h) [
      | inl (e, e') ↦ rw (e, e', external) refl
      | inr e ↦ rw (e, (text_beq_iff key key).1 refl, external) (rw full (rw back refl))
    ]

-- A payload is read back; the empty payload is not written.
pub decode_operation_payload-encode_operation_payload :
    (wire : Wire) (payload : Text) (pairs : External)
    → encode_operation_payload wire payload ≡ done pairs
    → decode_operation_payload wire pairs ≡ done payload
unfolding encode_operation_payload decode_operation_payload external validate_operation_payload
    text_beq
decode_operation_payload-encode_operation_payload wire [] pairs h = rw (← done_inj h) refl
decode_operation_payload-encode_operation_payload wire (c ∷ payload) pairs h =
    let (u, valid, e) =
      bind-done (checked (validate_operation_payload wire.platform (c ∷ payload)))
        (λ _. done ((text "pvn:compute-payload", c ∷ payload) ∷ [])) h in
    rw (← done_inj e) (rw valid refl)
