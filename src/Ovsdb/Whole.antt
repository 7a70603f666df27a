-- ===== src/Ovsdb/Whole.antt =====
-- decodeDatabase of internal/ovsdbstore/codec.go with the checks of the whole snapshot at its end.
-- validateReferences of validation.go is that of internal/controlstore/memory.go on the snapshot.
use proxmox_ovn.Prelude.{◌≡◌, refl, subst, not, ◌++◌, List, [], ◌∷◌, map, In, inl, inr, arith}
use proxmox_ovn.Text.{Text}
use proxmox_ovn.Result.{Check, ok, err}
use proxmox_ovn.Model.Kind.{Kind, kinds}
use proxmox_ovn.Model.Resource.{Resource}
use proxmox_ovn.Model.Validation.Whole.{validate}
use proxmox_ovn.Platform.{Platform}
use proxmox_ovn.Store.Table.{Table}
use proxmox_ovn.Store.References.{validate_references}
use proxmox_ovn.Store.Integrity.{IsClosed}
use proxmox_ovn.Store.Integrity.Resolved.{validated-Resolves}
use proxmox_ovn.Ovsdb.Outcome.{
  Outcome, done, collect, ◌>>=◌, ◌>>◌, malformed, bind-done, done_inj, unless, unless-done, checked,
}
use proxmox_ovn.Ovsdb.Snapshot.{Snapshot, StoredResource, Wire}
use proxmox_ovn.Ovsdb.Unique.{is_snapshot_unique}
use proxmox_ovn.Ovsdb.Distinct.{is_snapshot_unique-IsDistinct}
use proxmox_ovn.Store.Uniqueness.Rows.{IsDistinct}
use proxmox_ovn.Ovsdb.Database.{RawDatabase, decode_rows}
use proxmox_ovn.Ovsdb.Held.{IsWhole}
use proxmox_ovn.Ovsdb.Passes.{decode_rows-IsWhole}

-- The stored resources of a snapshot, kind by kind.
abbrev pub rows_of : Snapshot → List Kind → Table
rows_of s [] = []
rows_of s (kind ∷ ks) =
    map (λ (entry : Text × StoredResource). entry.1.resource) (s.resources kind) ++ rows_of s ks

abbrev pub table_of : Snapshot → Table
table_of s = rows_of s kinds

-- What each stored resource must pass; in a decoded snapshot a key of the table names one entry.
unfoldable pub check_stored : Platform → Table → Resource → Outcome (Unit {0})
check_stored platform t r = do checked (validate platform r.body); checked (validate_references t r)

-- decodeDatabase
unfoldable pub decode_database : Wire → RawDatabase → Outcome Snapshot
decode_database wire raw = do
  s ← decode_rows wire raw
  passed ← collect (check_stored wire.platform (table_of s)) (table_of s)
  unless (not (is_snapshot_unique (table_of s))) malformed
  done s

checked-ok : (c : Check) {u : Unit {0}} → checked c ≡ done u → c ≡ ok tt
checked-ok (ok tt) h = refl
checked-ok (err e) h = cc

collect-In :
    {A B : Type 0} (f : A → Outcome B) (xs : List A) (ys : List B) (x : A)
    → collect f xs ≡ done ys
    → In x xs
    → (y : B) × (f x ≡ done y)
collect-In f [] ys x h m = elim m [ ]
collect-In f (first ∷ xs) ys x h m =
    let (y, e, h1) = bind-done (f first) (λ y. collect f xs >>= λ ys. done (y ∷ ys)) h in
    let (rest, e', h2) = bind-done (collect f xs) (λ ys. done (y ∷ ys)) h1 in
    elim m [ inl same ↦ (y, rw (← same) e) | inr later ↦ collect-In f xs rest x e' later ]

stored_checks :
    (platform : Platform) (t : Table) (r : Resource) (u : Unit {0})
    → check_stored platform t r ≡ done u
    → (validate platform r.body ≡ ok tt) × (validate_references t r ≡ ok tt)
unfolding check_stored
stored_checks platform t r u h =
    let (v, e, h') = bind-done (checked (validate platform r.body)) _ h in
    (checked-ok (validate platform r.body) e, checked-ok (validate_references t r) h')

stored_passed :
    (platform : Platform) (t : Table) (passed : List (Unit {0})) (r : Resource)
    → collect (check_stored platform t) t ≡ done passed
    → In r t
    → (validate platform r.body ≡ ok tt) × (validate_references t r ≡ ok tt)
stored_passed platform t passed r h m =
    let (u, e) = collect-In (check_stored platform t) t passed r h m in
    stored_checks platform t r u e

-- A snapshot that decodeDatabase gives is a well-formed state of the in-memory store: whatever a
-- resource names is there, no two resources of a kind with different ids are in conflict, and every
-- resource is valid by its kind's rules. Moreover each one stands under its own id and kind with
-- sound metadata, and under a UUID that is not empty and stands for its id.
pub decode_database_well_formed :
    (wire : Wire) (raw : RawDatabase) (s : Snapshot)
    → decode_database wire raw ≡ done s
    → IsClosed (table_of s)
      × IsDistinct (table_of s)
      × ((r : Resource) → In r (table_of s) → validate wire.platform r.body ≡ ok tt)
      × IsWhole s
unfolding decode_database
decode_database_well_formed wire raw s h =
    let (found, e, h1) = bind-done (decode_rows wire raw) _ h in
    let (passed, e', h2) =
      bind-done (collect (check_stored wire.platform (table_of found)) (table_of found)) _ h1 in
    let (u, e'', h3) =
      bind-done (unless (not (is_snapshot_unique (table_of found))) malformed) _ h2 in
    let unique = unless-done (not (is_snapshot_unique (table_of found))) malformed e'' in
    let passes = stored_passed wire.platform (table_of found) passed in
    subst
      (λ (t : Snapshot).
        IsClosed (table_of t)
        × IsDistinct (table_of t)
        × ((r : Resource) → In r (table_of t) → validate wire.platform r.body ≡ ok tt)
        × IsWhole t)
      (done_inj h3)
      (
        record {
          resolves = λ r m.
              validated-Resolves wire.platform (table_of found) r.meta r.body (passes r e' m).0
                (passes r e' m).1;
        },
        is_snapshot_unique-IsDistinct (table_of found) (ground arith),
        (λ r m. (passes r e' m).0),
        decode_rows-IsWhole wire raw found e,
      )
