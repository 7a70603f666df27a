-- ===== src/Store/Replay/Requests.antt =====
-- Create, Update and BeginDelete, repeated under one idempotency key.
use proxmox_ovn.Prelude.{ℕ, ◌≡◌, subst, inl, inr, true, false, [], ◌++◌, some, arith, ℤ, nat_beq}
use proxmox_ovn.Text.{Text, text, is_empty, decimal}
use proxmox_ovn.Platform.{Platform}
use proxmox_ovn.Result.{
  Result, ok, err, Error, idempotency_conflict, cancelled, not_found, conflict, precondition, ◌>>=◌,
  bind-ok, then-ok, refuse, or_fail, ok_inj,
}
use proxmox_ovn.Model.Kind.{Kind}
use proxmox_ovn.Model.Resource.{Resource, resource_kind}
use proxmox_ovn.Store.Table.{lookup}
use proxmox_ovn.Store.Referrers.{is_referenced}
use proxmox_ovn.Store.Idempotency.{
  Store, fingerprint, delete_fingerprint, idempotency_scope, replay, find_record,
}
use proxmox_ovn.Store.Create.{
  Written, create, create_new, after_replay, starts_started, check_create, prepare_create,
}
use proxmox_ovn.Store.Update.{update, update_current, stale, check_update, prepare_update}
use proxmox_ovn.Store.Delete.{begin_delete, begin_delete_current}
use proxmox_ovn.Store.Outcomes.{after_replay_cases}
use proxmox_ovn.Store.Replay.{scope_nonempty, replay-remember, replay_other}

-- Under a scope and a fingerprint the store answers with the resource.
abbrev Answers : Store → Text → ℕ → Resource → Type 0
Answers s scope print r = replay s scope print ≡ ok (some r)

Answers-again :
    (s : Store) (new : Result Written) (scope : Text) (print : ℕ) (r : Resource)
    → Answers s scope print r
    → (replay s scope print >>= after_replay s new)
      ≡ ok (record { resource = r; replayed = true; store = s })
unfolding after_replay
Answers-again s new scope print r h = rw h

refuses_other :
    (s : Store) (new : Result Written) (scope : Text) (print other : ℕ) (r : Resource)
    → Answers s scope print r
    → nat_beq print other ≡ false
    → (replay s scope other >>= after_replay s new) ≡ err idempotency_conflict
refuses_other s new scope print other r h e = rw (replay_other s scope print other r h e)

-- A request that was answered has its answer remembered, if the new work remembers its own.
answered :
    (s : Store) (new : Result Written) (scope : Text) (print : ℕ) {w : Written}
    → (new ≡ ok w → Answers w.store scope print w.resource)
    → (replay s scope print >>= after_replay s new) ≡ ok w
    → Answers w.store scope print w.resource
answered s new scope print remembers h =
    let (o, e, after) = bind-ok (replay s scope print) _ h in
    elim (after_replay_cases s new o after) [
      | inl (same, _, was) ↦ ground arith
      | inr (_, fresh) ↦ remembers fresh
    ]

create_new_remembers :
    (p : Platform) (key : Text) (print : ℕ) (scope : Text) (now : ℕ) (new_id : Text) (r : Resource)
    (s : Store) {w : Written}
    → is_empty scope ≡ false
    → create_new p key print scope now new_id r s ≡ ok w
    → Answers w.store scope print w.resource
unfolding create_new
create_new_remembers p key print scope now new_id r s e h =
    let (_, rest) = then-ok (refuse (starts_started r.body) conflict) _ h in
    let (_, end) = then-ok (check_create p s (prepare_create p key new_id r)) _ rest in
    subst (λ (x : Written). Answers x.store scope print x.resource) (ok_inj end)
      (replay-remember _ scope print _ false e)

update_current_remembers :
    (p : Platform) (expected : ℤ) (print : ℕ) (scope : Text) (now : ℕ) (r : Resource) (s : Store)
    {w : Written}
    → is_empty scope ≡ false
    → update_current p expected print scope now r s ≡ ok w
    → Answers w.store scope print w.resource
unfolding update_current
update_current_remembers p expected print scope now r s e h =
    let (current, _, rest) =
      bind-ok (or_fail (lookup s.resources (resource_kind r) r.meta.id) not_found) _ h in
    let (_, rest') = then-ok (refuse (stale expected current.meta.revision) precondition) _ rest in
    let (_, end) = then-ok (check_update p s.resources current (prepare_update p r)) _ rest' in
    subst (λ (x : Written). Answers x.store scope print x.resource) (ok_inj end)
      (replay-remember _ scope print _ false e)

begin_delete_current_remembers :
    (kind : Kind) (id : Text) (expected : ℤ) (print : ℕ) (scope : Text) (now : ℕ) (s : Store)
    {w : Written}
    → is_empty scope ≡ false
    → begin_delete_current kind id expected print scope now s ≡ ok w
    → Answers w.store scope print w.resource
unfolding begin_delete_current
begin_delete_current_remembers kind id expected print scope now s e h =
    let (current, _, rest) = bind-ok (or_fail (lookup s.resources kind id) not_found) _ h in
    let (_, rest') = then-ok (refuse (stale expected current.meta.revision) precondition) _ rest in
    let (_, end) = then-ok (refuse (is_referenced s.resources kind id) conflict) _ rest' in
    subst (λ (x : Written). Answers x.store scope print x.resource) (ok_inj end)
      (replay-remember _ scope print _ true e)

create-Answers :
    (p : Platform) (now : ℕ) (id : Text) (r : Resource) (key : Text) (s : Store) {w : Written}
    → is_empty key ≡ false
    → create p false now id r key s ≡ ok w
    → Answers w.store
        (idempotency_scope (text "create") (resource_kind r) [] key)
        (fingerprint p r [])
        w.resource
unfolding create
create-Answers p now id r key s e h =
    answered s _ _ _
      (create_new_remembers p key _ _ now id r s
        (scope_nonempty (text "create") (resource_kind r) [] key e))
      (then-ok (refuse false cancelled) _ h).1

same_answer :
    (s t : Store) (scope : Text) (print : ℕ) (r : Resource)
    → find_record t.idempotency scope ≡ find_record s.idempotency scope
    → Answers s scope print r
    → Answers t scope print r
unfolding replay
same_answer s t scope print r same h = rw same h

-- A Create that is sent again under its key answers with the resource of the first one, marks
-- the answer as replayed and leaves the store as it is: in every later store, whatever its
-- resources and its other replay records have become, that still has the replay record of this
-- key as the first Create left it.
pub create_again :
    (p : Platform) (now later : ℕ) (id other_id : Text) (r : Resource) (key : Text)
    (s later_store : Store) {w : Written}
    → is_empty key ≡ false
    → create p false now id r key s ≡ ok w
    → find_record later_store.idempotency
        (idempotency_scope (text "create") (resource_kind r) [] key)
      ≡ find_record w.store.idempotency (idempotency_scope (text "create") (resource_kind r) [] key)
    → create p false later other_id r key later_store
      ≡ ok (record { resource = w.resource; replayed = true; store = later_store })
unfolding create
create_again p now later id other_id r key s later_store {w} e h kept =
    Answers-again later_store _ _ _ w.resource
      (same_answer w.store later_store _ _ w.resource kept (create-Answers p now id r key s e h))

-- A Create of another resource of the kind under a key that is taken, with another fingerprint,
-- is refused as an idempotency conflict.
pub create_taken_key :
    (p : Platform) (now later : ℕ) (id other_id : Text) (r other : Resource) (key : Text)
    (s : Store) {w : Written}
    → is_empty key ≡ false
    → create p false now id r key s ≡ ok w
    → resource_kind other ≡ resource_kind r
    → nat_beq (fingerprint p r []) (fingerprint p other []) ≡ false
    → create p false later other_id other key w.store ≡ err idempotency_conflict
unfolding create
create_taken_key p now later id other_id r other key s {w} e h kind differ =
    refuses_other w.store _ _ _ _ w.resource (rw kind (create-Answers p now id r key s e h)) differ

update-Answers :
    (p : Platform) (now : ℕ) (r : Resource) (expected : ℤ) (key : Text) (s : Store) {w : Written}
    → is_empty key ≡ false
    → update p false now r expected key s ≡ ok w
    → Answers w.store
        (idempotency_scope (text "update") (resource_kind r) r.meta.id key)
        (fingerprint p r (text "expected=" ++ decimal expected))
        w.resource
unfolding update
update-Answers p now r expected key s e h =
    let (_, rest) = then-ok (refuse false cancelled) _ h in
    let (_, rest') = then-ok (refuse (is_empty r.meta.id) Error.conflict) _ rest in
    answered s _ _ _
      (update_current_remembers p expected _ _ now r s
        (scope_nonempty (text "update") (resource_kind r) r.meta.id key e))
      rest'

-- An Update that is sent again under its key, although its revision is no longer the current
-- one, answers with the resource of the first one and leaves the store as it is.
pub update_again :
    (p : Platform) (now later : ℕ) (r : Resource) (expected : ℤ) (key : Text) (s : Store)
    {w : Written}
    → is_empty key ≡ false
    → update p false now r expected key s ≡ ok w
    → update p false later r expected key w.store
      ≡ ok (record { resource = w.resource; replayed = true; store = w.store })
unfolding update
update_again p now later r expected key s {w} e h =
    let (_, rest) = then-ok (refuse false cancelled) _ h in
    let (named, _) = then-ok (refuse (is_empty r.meta.id) Error.conflict) _ rest in
    rw named (Answers-again w.store _ _ _ w.resource (update-Answers p now r expected key s e h))

begin_delete-Answers :
    (p : Platform) (now : ℕ) (kind : Kind) (id : Text) (expected : ℤ) (key : Text) (s : Store)
    {w : Written}
    → is_empty key ≡ false
    → begin_delete p false now kind id expected key s ≡ ok w
    → Answers w.store
        (idempotency_scope (text "delete") kind id key)
        (delete_fingerprint p id expected)
        w.resource
unfolding begin_delete
begin_delete-Answers p now kind id expected key s e h =
    answered s _ _ _
      (begin_delete_current_remembers kind id expected _ _ now s
        (scope_nonempty (text "delete") kind id key e))
      (then-ok (refuse false cancelled) _ h).1

-- A BeginDelete that is sent again under its key answers with the first tombstone and leaves
-- the store as it is.
pub begin_delete_again :
    (p : Platform) (now later : ℕ) (kind : Kind) (id : Text) (expected : ℤ) (key : Text) (s : Store)
    {w : Written}
    → is_empty key ≡ false
    → begin_delete p false now kind id expected key s ≡ ok w
    → begin_delete p false later kind id expected key w.store
      ≡ ok (record { resource = w.resource; replayed = true; store = w.store })
unfolding begin_delete
begin_delete_again p now later kind id expected key s {w} e h =
    Answers-again w.store _ _ _ w.resource (begin_delete-Answers p now kind id expected key s e h)
