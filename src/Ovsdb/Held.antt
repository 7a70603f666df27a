-- ===== src/Ovsdb/Held.antt =====
-- What the second pass of decodeDatabase in internal/ovsdbstore/codec.go stores of a resource.
use proxmox_ovn.Prelude.{
  ◌≡◌, refl, sym, ap, subst, true, false, ◌∷◌, some, inl, inr, ◌==◌, Bool-cases, some_inj, ==→≡,
}
use proxmox_ovn.Text.{Text, text, text_eq, text_beq, text_beq_iff, is_empty}
use proxmox_ovn.Model.Kind.{Kind, kind_eq}
use proxmox_ovn.Model.Resource.{resource_kind}
use proxmox_ovn.Ovsdb.Outcome.{done, malformed, bind-done, done_inj, unless, unless-done, or_failed}
use proxmox_ovn.Ovsdb.Row.{Row, Value, Atom, row_uuid, value_uuid, atom_uuid, column, atom, uuid}
use proxmox_ovn.Ovsdb.Snapshot.{Snapshot, StoredResource, Wire, find}
use proxmox_ovn.Ovsdb.Decode.{decode_resource}
use proxmox_ovn.Ovsdb.Metadata.{is_sound, decode_resource_parts}
use proxmox_ovn.Ovsdb.Consistency.{IsIndexed}
use proxmox_ovn.Ovsdb.Database.{with_kind, decode_stored, is_taken_id}

-- A stored resource has a UUID that stands for its id, it stands under its own id and kind, and its
-- metadata are sound.
pub record IsHeld (s : Snapshot) (kind : Kind) (id : Text) (entry : StoredResource) : Type 0 where
  pub full : is_empty entry.uuid ≡ false
  pub known : find entry.uuid (s.uuid_to_id kind) ≡ some id
  pub named : entry.resource.meta.id ≡ id
  pub sound : is_sound entry.resource.meta ≡ true
  pub kinded : resource_kind entry.resource ≡ kind

abbrev pub IsWhole : Snapshot → Type 0
IsWhole s =
    (kind : Kind) (id : Text) (entry : StoredResource)
    → find id (s.resources kind) ≡ some entry
    → IsHeld s kind id entry

atom_uuid-full : (a : Atom) (key : Text) → atom_uuid a ≡ done key → is_empty key ≡ false
unfolding atom_uuid
atom_uuid-full (uuid u) key h =
    let (v, e, e') = bind-done (unless (is_empty u) malformed) (λ _. done u) h in
    rw (← done_inj e') (unless-done _ malformed e)
atom_uuid-full (Atom.str s) key h = cc
atom_uuid-full (Atom.bool b) key h = cc
atom_uuid-full (Atom.number n) key h = cc

value_uuid-full : (value : Value) (key : Text) → value_uuid value ≡ done key → is_empty key ≡ false
unfolding value_uuid
value_uuid-full (atom a) key h = atom_uuid-full a key h
value_uuid-full (Value.set atoms) key h = cc
value_uuid-full (Value.map pairs) key h = cc

row_uuid-full :
    (name : Text) (row : Row) (key : Text) → row_uuid name row ≡ done key → is_empty key ≡ false
unfolding row_uuid
row_uuid-full name row key h =
    let (value, e, e') = bind-done (or_failed (column name row) malformed) value_uuid h in
    value_uuid-full value key e'

-- A later snapshot with the same UUIDs that stores one more resource.
stored-IsWhole :
    (kind : Kind) (id : Text) (entry : StoredResource) (s t : Snapshot)
    → IsWhole s
    → t.uuid_to_id ≡ s.uuid_to_id
    → t.resources ≡ with_kind kind ((id, entry) ∷ s.resources kind) s.resources
    → IsHeld t kind id entry
    → IsWhole t
unfolding text_beq
stored-IsWhole kind id entry s t whole uuids resources held k id' entry' h =
    elim (Bool-cases (k == kind)) [
      | inl same ↦
          let e = ==→≡ k kind same in
          let h1 : find id' ((id, entry) ∷ s.resources kind) ≡ some entry' =
            rw same at (subst (λ f. find id' (f k) ≡ some entry') resources h) in
          elim (Bool-cases (text_beq id id')) [
            | inl here ↦
                subst (λ j. IsHeld t j id' entry') (sym e)
                  (subst (λ i. IsHeld t kind i entry') ((text_beq_iff id id').0 here)
                    (subst (IsHeld t kind id) (some_inj (rw here at h1)) held))
            | inr there ↦ subst (λ j. IsHeld t j id' entry') (sym e) (moved kind (rw there at h1))
          ]
      | inr other ↦ moved k (rw other at (subst (λ f. find id' (f k) ≡ some entry') resources h))
    ]
  where
    moved : (j : Kind) → find id' (s.resources j) ≡ some entry' → IsHeld t j id' entry'
    moved j there =
        let old = whole j id' entry' there in
        record {
          full = old.full;
          known = subst (λ f. find entry'.uuid (f j) ≡ some id') (sym uuids) old.known;
          named = old.named;
          sound = old.sound;
          kinded = old.kinded;
        }

module _ (wire : Wire) where
  pub decode_stored_lem :
      (kind : Kind) (row : Row) (s t : Snapshot)
      → IsIndexed s kind row
      → IsWhole s
      → decode_stored wire kind row s ≡ done t
      → (t.uuid_to_id ≡ s.uuid_to_id) × IsWhole t
  unfolding decode_stored
  decode_stored_lem kind row s t indexed whole h =
      let (resource, e, h1) = bind-done (decode_resource wire s kind row) _ h in
      let (u, one, h2) = bind-done (unless (is_taken_id s kind resource.meta.id) malformed) _ h1 in
      let (key, e', h3) = bind-done (row_uuid (text "_uuid") row) _ h2 in
      let (there, sound, kinded) = decode_resource_parts wire s kind row resource e in
      let uuids : t.uuid_to_id ≡ s.uuid_to_id =
        sym (ap (λ (r : Snapshot). r.uuid_to_id) (done_inj h3)) in
      (
        uuids,
        stored-IsWhole kind resource.meta.id (record { uuid = key; resource = resource }) s t whole
            uuids (sym (ap (λ (r : Snapshot). r.resources) (done_inj h3)))
            (record {
              full = row_uuid-full (text "_uuid") row key e';
              known =
                  subst (λ f. find key (f kind) ≡ some resource.meta.id) (sym uuids)
                    (indexed resource.meta.id key there e');
              named = refl;
              sound = sound;
              kinded = kinded;
            }),
      )
