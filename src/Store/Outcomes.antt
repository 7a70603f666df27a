-- ===== src/Store/Outcomes.antt =====
-- What each method has done when it succeeds: the store after it, and the checks it has passed.
pub mod Deletes
pub mod Operations
pub mod Updates
use proxmox_ovn.Prelude.{
  ℕ, ◌≡◌, refl, sym, ap, ◌∙◌, ◌⊎◌, inl, inr, Bool, true, false, List, [], ◌∷◌, ◌++◌, Option, none,
  some, arith, ℤ, Bool-cases, if◌then◌else◌,
}
use proxmox_ovn.Text.{Text, text, is_empty, decimal}
use proxmox_ovn.Platform.{Platform}
use proxmox_ovn.Result.{
  Error, Result, ok, err, not_found, ◌>>=◌, bind-ok, then-ok, refuse, or_fail, or_fail-ok,
}
use proxmox_ovn.Model.Kind.{Kind}
use proxmox_ovn.Model.Resource.{Resource, Operation, resource_kind}
use proxmox_ovn.Store.Table.{Table, Row, lookup, put, remove, cast_found, operation?}
use proxmox_ovn.Store.Idempotency.{Store, fingerprint, idempotency_scope, replay, remember}
use proxmox_ovn.Store.Create.{
  Written, prepare_create, stamp_create, check_create, create, create_new, after_replay,
  starts_started,
}
use proxmox_ovn.Store.Update.{
  prepare_update, stamp_update, check_update, restored, stale, update, update_current,
}

pub resources-remember :
    (s : Store) (scope : Text) (print : ℕ) (r : Resource) (deleted : Bool)
    → (remember s scope print r deleted).resources ≡ s.resources
unfolding remember
resources-remember s scope print r deleted = ground arith

create_new_outcome :
    (p : Platform) (key : Text) (print : ℕ) (scope : Text) (now : ℕ) (new_id : Text) (r : Resource)
    (s : Store) {w : Written}
    → create_new p key print scope now new_id r s ≡ ok w
    → (starts_started r.body ≡ false)
      × (check_create p s (prepare_create p key new_id r) ≡ ok tt)
      × (w.replayed ≡ false)
      × (w.resource ≡ stamp_create now (prepare_create p key new_id r))
      × (w.store.resources ≡ put s.resources (stamp_create now (prepare_create p key new_id r)))
unfolding create_new
create_new_outcome p key print scope now new_id r s h =
    let copy = prepare_create p key new_id r in
    let kept =
      resources-remember (record s { resources = put s.resources (stamp_create now copy) }) scope
        print (stamp_create now copy) false in
    (ground arith, ground arith, ground arith, ground arith, ground (arith, kept))

pub after_replay_cases :
    (s : Store) (new : Result Written) (o : Option Resource) {w : Written}
    → after_replay s new o ≡ ok w
    → ((w.store ≡ s) × (w.replayed ≡ true) × (o ≡ some w.resource)) ⊎ ((o ≡ none) × (new ≡ ok w))
unfolding after_replay
after_replay_cases s new none h = inr (refl, h)
after_replay_cases s new (some r) h = inl (ground arith, ground arith, ground arith)

-- A create either answers a repeated request, or has passed its checks and written one row.
pub create_outcome :
    (p : Platform) (done : Bool) (now : ℕ) (new_id : Text) (r : Resource) (key : Text) (s : Store)
    {w : Written}
    → create p done now new_id r key s ≡ ok w
    → ((w.store ≡ s) × (w.replayed ≡ true))
      ⊎ ((starts_started r.body ≡ false)
          × (check_create p s (prepare_create p key new_id r) ≡ ok tt)
          × (w.replayed ≡ false)
          × (w.resource ≡ stamp_create now (prepare_create p key new_id r))
          × (w.store.resources
              ≡ put s.resources (stamp_create now (prepare_create p key new_id r))))
unfolding create
create_outcome p done now new_id r key s h =
    let (_, rest) = then-ok (refuse done Error.cancelled) _ h in
    let (o, _, after) = bind-ok (replay s _ _) _ rest in
    elim (after_replay_cases s _ o after) [
      | inl (same, again, _) ↦ inl (same, again)
      | inr (_, new) ↦ inr (create_new_outcome p key _ _ now new_id r s new)
    ]

-- What an update that is no replay has found, checked and written.
pub record Updated (p : Platform) (now : ℕ) (r : Resource) (expected : ℤ) (s : Store) (w : Written)
    : Type 0 where
  pub current : Resource
  pub found_current : lookup s.resources (resource_kind r) r.meta.id ≡ some current
  pub fresh : stale expected current.meta.revision ≡ false
  pub checked : check_update p s.resources current (prepare_update p r) ≡ ok tt
  pub first_time : w.replayed ≡ false
  pub written : w.resource ≡ stamp_update now current.meta (prepare_update p r)
  pub table :
      w.store.resources
      ≡ put
          (restored s.resources (prepare_update p r) current)
          (stamp_update now current.meta (prepare_update p r))

update_current_outcome :
    (p : Platform) (expected : ℤ) (print : ℕ) (scope : Text) (now : ℕ) (r : Resource) (s : Store)
    {w : Written}
    → update_current p expected print scope now r s ≡ ok w
    → Updated p now r expected s w
unfolding update_current
update_current_outcome p expected print scope now r s h =
    let (current, found_it, _) =
      bind-ok (or_fail (lookup s.resources (resource_kind r) r.meta.id) not_found) _ h in
    let copy = prepare_update p r in
    let stored = stamp_update now current.meta copy in
    let kept =
      resources-remember (record s { resources = put (restored s.resources copy current) stored })
        scope print stored false in
    record {
      current = current;
      found_current = or_fail-ok _ not_found found_it;
      fresh = ground arith;
      checked = ground arith;
      first_time = ground arith;
      written = ground arith;
      table = ground (arith, kept);
    }

-- An update either answers a repeated request, or has replaced the row it found.
pub update_outcome :
    (p : Platform) (done : Bool) (now : ℕ) (r : Resource) (expected : ℤ) (key : Text) (s : Store)
    {w : Written}
    → update p done now r expected key s ≡ ok w
    → ((w.store ≡ s) × (w.replayed ≡ true)) ⊎ Updated p now r expected s w
unfolding update
update_outcome p done now r expected key s h =
    let (_, rest) = then-ok (refuse done Error.cancelled) _ h in
    let (_, rest') = then-ok (refuse (is_empty r.meta.id) Error.conflict) _ rest in
    let (o, _, after) = bind-ok (replay s _ _) _ rest' in
    elim (after_replay_cases s _ o after) [
      | inl (same, again, _) ↦ inl (same, again)
      | inr (_, new) ↦ inr (update_current_outcome p expected _ _ now r s new)
    ]
