-- ===== src/Ovsdb/Passes.antt =====
-- The two passes of decodeDatabase in internal/ovsdbstore/codec.go as a whole.
use proxmox_ovn.Prelude.{
  ◌≡◌, refl, sym, ap, subst, ◌∙◌, List, [], ◌∷◌, Option, some, inl, inr, In, ◌==◌, Bool-cases,
  Option-cases,
}
use proxmox_ovn.Text.{Text, text, text_eq}
use proxmox_ovn.Model.Kind.{Kind, kind_eq, kinds}
use proxmox_ovn.Ovsdb.Outcome.{Gives-bind, done, malformed, bind-done, done_inj, unless, or_failed}
use proxmox_ovn.Ovsdb.Row.{Row, row_string, row_uuid}
use proxmox_ovn.Ovsdb.Snapshot.{Snapshot, Wire, IsConsistent, find}
use proxmox_ovn.Ovsdb.RoundTrip.Parts.{or_failed-done}
use proxmox_ovn.Ovsdb.Consistency.{IsIndexed, index_tables_lem, over_tables_R}
use proxmox_ovn.Ovsdb.Database.{
  RawDatabase, new_snapshot, index_row, over, over_tables, is_there, decode_internal_operation,
  decode_row, decode_rows,
}
use proxmox_ovn.Ovsdb.Held.{IsWhole, decode_stored_lem}
use proxmox_ovn.Ovsdb.Own.{IsSame, decode_internal_operation-IsSame}

module _ (wire : Wire) where
  same-IsWhole : (s t : Snapshot) → IsSame s t → IsWhole s → IsWhole t
  same-IsWhole s t (uuids, resources) whole kind id entry h =
      let old = whole kind id entry (subst (λ f. find id (f kind) ≡ some entry) resources h) in
      record {
        full = old.full;
        known = subst (λ f. find entry.uuid (f kind) ≡ some id) (sym uuids) old.known;
        named = old.named;
        sound = old.sound;
        kinded = old.kinded;
      }

  decode_row_lem :
      (kind : Kind) (row : Row) (s t : Snapshot)
      → IsIndexed s kind row
      → IsWhole s
      → decode_row wire kind row s ≡ done t
      → (t.uuid_to_id ≡ s.uuid_to_id) × IsWhole t
  unfolding decode_row
  decode_row_lem kind row s t indexed whole h = elim (Bool-cases (kind == Kind.operation)) [
    | inr resource ↦ decode_stored_lem wire kind row s t indexed whole (rw resource at h)
    | inl operation ↦
        let (handled, e, h1) =
          bind-done (decode_internal_operation wire row s) _ (rw operation at h) in
        elim (Option-cases handled) [
          | inl own ↦ decode_stored_lem wire kind row s t indexed whole (rw own at h1)
          | inr (next, own) ↦
              let same =
                subst (IsSame s) (done_inj (rw own at h1))
                  (decode_internal_operation-IsSame wire row s next (e ∙ ap done own)) in
              (same.0, same-IsWhole s t same whole)
        ]
  ]

  over_stored :
      (kind : Kind) (rows : List Row) (s t : Snapshot)
      → ((row : Row) → In row rows → IsIndexed s kind row)
      → IsWhole s
      → over (decode_row wire kind) rows s ≡ done t
      → (t.uuid_to_id ≡ s.uuid_to_id) × IsWhole t
  over_stored kind [] s t indexed whole h =
      subst (λ (r : Snapshot). (r.uuid_to_id ≡ s.uuid_to_id) × IsWhole r) (done_inj h) (refl, whole)
  over_stored kind (row ∷ rows) s t indexed whole h =
      let (next, e, h') =
        bind-done (decode_row wire kind row s) (over (decode_row wire kind) rows) h in
      let (uuids, whole') = decode_row_lem kind row s next (indexed row (inl refl)) whole e in
      let (uuids', whole'') =
        over_stored kind rows next t
          (λ r m.
            subst
              (λ f.
                (id key : Text)
                → row_string (text "id") r ≡ done id
                → row_uuid (text "_uuid") r ≡ done key
                → find key (f kind) ≡ some id)
              (sym uuids) (indexed r (inr m)))
          whole' h' in
      (uuids' ∙ uuids, whole'')

  over_tables_stored :
      (raw : RawDatabase) (ks : List Kind) (s t : Snapshot)
      → ((kind : Kind) (rows : List Row) (row : Row)
          → In kind ks
          → raw kind ≡ some rows
          → In row rows
          → IsIndexed s kind row)
      → IsWhole s
      → over_tables (decode_row wire) raw ks s ≡ done t
      → IsWhole t
  unfolding over_tables
  over_tables_stored raw [] s t indexed whole h = subst IsWhole (done_inj h) whole
  over_tables_stored raw (first ∷ ks) s t indexed whole h =
      let (rows, e, h1) = bind-done (or_failed (raw first) malformed) _ h in
      let (next, e', h2) = bind-done (over (decode_row wire first) rows s) _ h1 in
      let there = or_failed-done (raw first) malformed e in
      let (uuids, whole') =
        over_stored first rows s next (λ row m. indexed first rows row (inl refl) there m) whole
          e' in
      over_tables_stored raw ks next t
        (λ kind rows row k r m.
          subst
            (λ f.
              (id key : Text)
              → row_string (text "id") row ≡ done id
              → row_uuid (text "_uuid") row ≡ done key
              → find key (f kind) ≡ some id)
            (sym uuids) (indexed kind rows row (inr k) r m))
        whole' h2

index_row_stored :
    (kind : Kind) (row : Row) (s t : Snapshot)
    → index_row kind row s ≡ done t
    → t.resources ≡ s.resources
unfolding index_row
index_row_stored kind row s = Gives-bind (row_string (text "id") row) _ (λ id.
    Gives-bind (row_uuid (text "_uuid") row) _ (λ key.
      Gives-bind (unless (is_there (find key (s.uuid_to_id kind))) malformed) _
        (λ u t e. subst (λ (r : Snapshot). r.resources ≡ s.resources) (done_inj e) refl)))

-- Every resource that the two passes of decodeDatabase store has a UUID that is not empty and
-- stands for its id, and it stands under its own id and kind, with a revision from 1, an applied
-- revision between 0 and the revision and one of the four states.
pub decode_rows-IsWhole :
    (wire : Wire) (raw : RawDatabase) (s : Snapshot) → decode_rows wire raw ≡ done s → IsWhole s
unfolding decode_rows
decode_rows-IsWhole wire raw s h =
    let (indexed, e, h') = bind-done (over_tables index_row raw kinds new_snapshot) _ h in
    over_tables_stored wire raw kinds indexed s
      (λ kind rows row k r m. index_tables_lem raw kinds new_snapshot indexed e kind rows row k r m)
      (λ kind id entry there.
        let none_there : Option.none ≡ some entry =
          subst (λ f. find id (f kind) ≡ some entry)
            (over_tables_R index_row (λ s t. t.resources ≡ s.resources) (λ s. refl)
              (λ s t u a b. b ∙ a) index_row_stored raw kinds new_snapshot indexed e)
            there in
        cc)
      h'

-- In a decoded snapshot the two maps of UUIDs belong together.
pub decode_rows-IsConsistent :
    (wire : Wire) (raw : RawDatabase) (s : Snapshot)
    → decode_rows wire raw ≡ done s
    → IsConsistent s
decode_rows-IsConsistent wire raw s h kind id entry there =
    let held = decode_rows-IsWhole wire raw s h kind id entry there in (held.full, held.known)
