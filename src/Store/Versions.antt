-- ===== src/Store/Versions.antt =====
-- Revisions and reads: what a write leaves to be read, and what the next write must expect.
pub mod Removals
use proxmox_ovn.Prelude.{
  ℕ, ◌≡◌, refl, sym, ap, subst, ◌∙◌, and-true, ◌⊎◌, inl, inr, Bool, true, false, not, ◌&&◌, ◌||◌,
  Option, none, some, arith, ℤ, pos, ltb_ℤ, increment, int_eq, ==→≡, ==_iff, ◌==◌, Bool-cases,
  some_inj, if◌then◌else◌,
}
use proxmox_ovn.Text.{Text, text_eq}
use proxmox_ovn.Platform.{Platform}
use proxmox_ovn.Result.{
  Result, ok, err, Error, not_found, already_exists, refuse, then-ok, refuse-ok, or_fail,
  or_fail-ok,
}
use proxmox_ovn.Model.Kind.{Kind, kind_eq}
use proxmox_ovn.Model.Resource.{Resource, Body, Metadata, body_kind, resource_kind, port}
use proxmox_ovn.Store.Table.{Table, lookup, put, has_key, has_key_iff, found}
use proxmox_ovn.Store.Table.Laws.{SameKey, lookup-put, lookup-put_self}
use proxmox_ovn.Store.Idempotency.{Store}
use proxmox_ovn.Store.Create.{
  Written, create, check_create, prepare_create, stamp_create, name_port,
}
use proxmox_ovn.Store.Update.{update, stale, prepare_update, stamp_update}
use proxmox_ovn.Store.Read.{get}
use proxmox_ovn.Store.Outcomes.{Updated, create_outcome, update_outcome}
use proxmox_ovn.Store.Outcomes.Updates.{Updated-table, prepare_update-SameKey}

-- The keys other than (kind, id) have the same rows in both tables.
abbrev pub AgreesElsewhere : Kind → Text → Table → Table → Type 0
AgreesElsewhere kind id t u =
    (k : Kind) (i : Text) → (k == kind && i == id) ≡ false → lookup u k i ≡ lookup t k i

pub put-AgreesElsewhere :
    (t : Table) (r : Resource) (kind : Kind) (id : Text)
    → (resource_kind r ≡ kind) × (r.meta.id ≡ id)
    → AgreesElsewhere kind id t (put t r)
put-AgreesElsewhere t r kind id same k i other =
    lookup-put t r k i ∙ (elim (Bool-cases (has_key k i r)) [
      | inl hit ↦
          let (a, b) = (has_key_iff k i r).0 hit in
          absurd
            (ground (arith, (==_iff k kind).1 (sym a ∙ same.0), (==_iff i id).1 (sym b ∙ same.1)))
      | inr miss ↦ rw miss refl
    ])

-- The second table has this row, or none, under the key, and otherwise the rows of the first.
abbrev pub DiffersAt : Kind → Text → Option Resource → Table → Table → Type 0
DiffersAt kind id row t u =
    (k : Kind) (i : Text) → lookup u k i ≡ (if k == kind && i == id then row else lookup t k i)

pub AgreesElsewhere-DiffersAt :
    (kind : Kind) (id : Text) (row : Option Resource) (t u : Table)
    → lookup u kind id ≡ row
    → AgreesElsewhere kind id t u
    → DiffersAt kind id row t u
AgreesElsewhere-DiffersAt kind id row t u here same k i = elim (Bool-cases (k == kind && i == id)) [
  | inl hit ↦
      let (ek, ei) = and-true (k == kind) (i == id) hit in
      rw hit (ap (λ x. lookup u x i) (==→≡ k kind ek) ∙ ap (lookup u kind) (==→≡ i id ei) ∙ here)
  | inr other ↦ rw other (same k i other)
]

pub put-DiffersAt :
    (t u : Table) (r : Resource) (kind : Kind) (id : Text)
    → u ≡ put t r
    → (resource_kind r ≡ kind) × (r.meta.id ≡ id)
    → DiffersAt kind id (some r) t u
put-DiffersAt t u r kind id e same = subst (DiffersAt kind id (some r) t) (sym e) (
    AgreesElsewhere-DiffersAt kind id (some r) t (put t r)
      (ap (λ k. lookup (put t r) k id) (sym same.0)
        ∙ ap (lookup (put t r) (resource_kind r)) (sym same.1)
        ∙ lookup-put_self t r)
      (put-AgreesElsewhere t r kind id same))

-- A written row is read back under the key it was written for.
pub get-put :
    (s : Store) (t : Table) (r : Resource) (kind : Kind) (id : Text)
    → s.resources ≡ put t r
    → (resource_kind r ≡ kind) × (r.meta.id ≡ id)
    → get false kind id s ≡ ok r
unfolding get
get-put s t r kind id e same =
    ap (λ u. or_fail (lookup u kind id) not_found) e
    ∙ ap (λ k. or_fail (lookup (put t r) k id) not_found) (sym same.0)
    ∙ ap (λ i. or_fail (lookup (put t r) (resource_kind r) i) not_found) (sym same.1)
    ∙ ap (λ o. or_fail o not_found) (lookup-put_self t r)

get-lookup :
    (s : Store) (kind : Kind) (id : Text) (r : Resource)
    → get false kind id s ≡ ok r
    → lookup s.resources kind id ≡ some r
unfolding get
get-lookup s kind id r h = or_fail-ok _ not_found h

stamp_update-SameKey :
    (p : Platform) (now : ℕ) (m : Metadata) (r : Resource)
    → SameKey (stamp_update now m (prepare_update p r)) r
unfolding stamp_update
stamp_update-SameKey p now m r = prepare_update-SameKey p r

stamp_update_meta :
    (now : ℕ) (m : Metadata) (r : Resource)
    → ((stamp_update now m r).meta.revision ≡ increment m.revision)
      × ((stamp_update now m r).meta.created_at ≡ m.created_at)
      × ((stamp_update now m r).meta.applied_revision ≡ m.applied_revision)
unfolding stamp_update
stamp_update_meta now m r = (refl, refl, refl)

pub fresh_revision : (expected current : ℤ) → stale expected current ≡ false → current ≡ expected
fresh_revision expected current h = ==→≡ current expected (ground arith)

-- The outcome of an update that is no replay.
first_update :
    (p : Platform) (done : Bool) (now : ℕ) (r : Resource) (expected : ℤ) (key : Text) (s : Store)
    {w : Written}
    → update p done now r expected key s ≡ ok w
    → w.replayed ≡ false
    → Updated p now r expected s w
first_update p done now r expected key s h first =
    elim (update_outcome p done now r expected key s h) [
      | inl (_, again) ↦ absurd (ground arith)
      | inr u ↦ u
    ]

Updated-SameKey :
    (p : Platform) (now : ℕ) (r : Resource) (expected : ℤ) (s : Store) (w : Written)
    → Updated p now r expected s w
    → SameKey w.resource r
Updated-SameKey p now r expected s w u = rw u.written (stamp_update-SameKey p now u.current.meta r)

-- An Update that succeeds, and is no replay, is read back: under the key of the resource Get
-- answers the stored row, with the revision after the expected one, and the store has that row
-- under the key and its former rows under every other one.
pub get-update :
    (p : Platform) (done : Bool) (now : ℕ) (r : Resource) (expected : ℤ) (key : Text) (s : Store)
    {w : Written}
    → update p done now r expected key s ≡ ok w
    → w.replayed ≡ false
    → (get false (resource_kind r) r.meta.id w.store ≡ ok w.resource)
      × (w.resource.meta.revision ≡ increment expected)
      × DiffersAt (resource_kind r) r.meta.id (some w.resource) s.resources w.store.resources
get-update p done now r expected key s {w} h first =
    let u = first_update p done now r expected key s h first in
    let same = Updated-SameKey p now r expected s w u in
    let table = Updated-table p now r expected s w u in
    (
      get-put w.store s.resources w.resource (resource_kind r) r.meta.id table same,
      ap (λ (x : Resource). x.meta.revision) u.written
          ∙ (stamp_update_meta now u.current.meta (prepare_update p r)).0
          ∙ ap increment (fresh_revision expected u.current.meta.revision u.fresh),
      put-DiffersAt s.resources w.store.resources w.resource (resource_kind r) r.meta.id table same,
    )

-- Of two updates of one resource, one right after the other and neither a replay, the second
-- succeeds only at the revision that the first has made: no update is lost.
pub update-update :
    (p : Platform) (done again : Bool) (now later : ℕ) (r other : Resource) (expected next : ℤ)
    (key key' : Text) (s : Store) {w v : Written}
    → resource_kind other ≡ resource_kind r
    → other.meta.id ≡ r.meta.id
    → update p done now r expected key s ≡ ok w
    → w.replayed ≡ false
    → update p again later other next key' w.store ≡ ok v
    → v.replayed ≡ false
    → next ≡ increment expected
update-update p done again now later r other expected next key key' s {w} {v} kind id h first h'
      first' =
    let (read, revision, _) = get-update p done now r expected key s h first in
    let u = first_update p again later other next key' w.store h' first' in
    sym (fresh_revision next u.current.meta.revision u.fresh)
    ∙ ap (λ (x : Resource). x.meta.revision)
        (some_inj (
          sym u.found_current
          ∙ ap (λ k. lookup w.store.resources k other.meta.id) kind
          ∙ ap (lookup w.store.resources (resource_kind r)) id
          ∙ get-lookup w.store (resource_kind r) r.meta.id w.resource read))
    ∙ revision

pub body_kind-name_port : (id : Text) (b : Body) → body_kind (name_port id b) ≡ body_kind b
unfolding name_port
body_kind-name_port id (port v) = refl
body_kind-name_port id _ = refl

-- Create keeps a resource's kind, and the id it has got.
created-SameKey :
    (p : Platform) (now : ℕ) (key id : Text) (r : Resource)
    → SameKey (stamp_create now (prepare_create p key id r)) (prepare_create p key id r)
unfolding stamp_create
created-SameKey p now key id r = (body_kind-name_port _ (prepare_create p key id r).body, refl)

create_checks_new :
    (p : Platform) (s : Store) (copy : Resource)
    → check_create p s copy ≡ ok tt
    → lookup s.resources (resource_kind copy) copy.meta.id ≡ none
unfolding check_create
create_checks_new p s copy h = ground arith

stamp_create_meta : (now : ℕ) (copy : Resource) → ((stamp_create now copy).meta.revision ≡ pos 1)
unfolding stamp_create
stamp_create_meta now copy = refl

pub get_absent :
    (s : Store) (kind : Kind) (id : Text)
    → lookup s.resources kind id ≡ none
    → get false kind id s ≡ err not_found
unfolding get
get_absent s kind id h = rw h

absent :
    (s : Store) (x copy : Resource)
    → SameKey x copy
    → lookup s.resources (resource_kind copy) copy.meta.id ≡ none
    → get false (resource_kind x) x.meta.id s ≡ err not_found
absent s x copy same e = get_absent s (resource_kind x) x.meta.id (
    ap (λ k. lookup s.resources k x.meta.id) same.0
    ∙ ap (lookup s.resources (resource_kind copy)) same.1
    ∙ e)

-- A Create that succeeds, and is no replay, has written a row of revision 1 under a key that had
-- none: Get answers it, and every other key of the store has its former row.
pub get-create :
    (p : Platform) (done : Bool) (now : ℕ) (id : Text) (r : Resource) (key : Text) (s : Store)
    {w : Written}
    → create p done now id r key s ≡ ok w
    → w.replayed ≡ false
    → (get false (resource_kind w.resource) w.resource.meta.id w.store ≡ ok w.resource)
      × (w.resource.meta.revision ≡ pos 1)
      × (get false (resource_kind w.resource) w.resource.meta.id s ≡ err not_found)
      × DiffersAt
          (resource_kind w.resource)
          w.resource.meta.id
          (some w.resource)
          s.resources
          w.store.resources
get-create p done now id r key s {w} h first = elim (create_outcome p done now id r key s h) [
  | inl (_, again) ↦ absurd (ground arith)
  | inr (_, checked, _, e, table) ↦
      let table' = table ∙ ap (put s.resources) (sym e) in
      (
        get-put w.store s.resources w.resource _ _ table' (refl, refl),
        ap (λ (x : Resource). x.meta.revision) e ∙ stamp_create_meta now _,
        absent s w.resource (prepare_create p key id r) (rw e (created-SameKey p now key id r))
            (create_checks_new p s _ checked),
        put-DiffersAt s.resources w.store.resources w.resource _ _ table' (refl, refl),
      )
]
