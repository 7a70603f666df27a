-- ===== src/Store/Outcomes/Deletes.antt =====
-- What BeginDelete and Purge have done when they succeed.
use proxmox_ovn.Prelude.{
  ℕ, ◌≡◌, ◌⊎◌, inl, inr, Bool, true, false, none, some, arith, ℤ, Option-cases, int_eq,
}
use proxmox_ovn.Text.{Text}
use proxmox_ovn.Platform.{Platform}
use proxmox_ovn.Result.{ok, cancelled, not_found, bind-ok, then-ok, refuse, or_fail, or_fail-ok}
use proxmox_ovn.Model.Kind.{Kind}
use proxmox_ovn.Model.Resource.{Resource}
use proxmox_ovn.Store.Table.{lookup, put, remove}
use proxmox_ovn.Store.Referrers.{is_referenced, is_unavailable}
use proxmox_ovn.Store.Idempotency.{Store, replay}
use proxmox_ovn.Store.Create.{Written}
use proxmox_ovn.Store.Update.{stale}
use proxmox_ovn.Store.Delete.{
  tombstone_of, begin_delete, begin_delete_current, purge, purge_found, check_purge, is_protected,
}
use proxmox_ovn.Store.Outcomes.{resources-remember, after_replay_cases}

pub record Buried (now : ℕ) (kind : Kind) (id : Text) (expected : ℤ) (s : Store) (w : Written)
    : Type 0 where
  pub current : Resource
  pub found_current : lookup s.resources kind id ≡ some current
  pub fresh : stale expected current.meta.revision ≡ false
  pub free : is_referenced s.resources kind id ≡ false
  pub written : w.resource ≡ tombstone_of now current
  pub table : w.store.resources ≡ put s.resources (tombstone_of now current)

begin_delete_current_outcome :
    (kind : Kind) (id : Text) (expected : ℤ) (print : ℕ) (scope : Text) (now : ℕ) (s : Store)
    {w : Written}
    → begin_delete_current kind id expected print scope now s ≡ ok w
    → Buried now kind id expected s w
unfolding begin_delete_current
begin_delete_current_outcome kind id expected print scope now s h =
    let (current, found_it, _) = bind-ok (or_fail (lookup s.resources kind id) not_found) _ h in
    let kept =
      resources-remember (record s { resources = put s.resources (tombstone_of now current) }) scope
        print (tombstone_of now current) true in
    record {
      current = current;
      found_current = or_fail-ok _ not_found found_it;
      fresh = ground arith;
      free = ground arith;
      written = ground arith;
      table = ground (arith, kept);
    }

-- A begun delete either answers a repeated request, or has written a tombstone over the row.
pub begin_delete_outcome :
    (p : Platform) (done : Bool) (now : ℕ) (kind : Kind) (id : Text) (expected : ℤ) (key : Text)
    (s : Store) {w : Written}
    → begin_delete p done now kind id expected key s ≡ ok w
    → ((w.store ≡ s) × (w.replayed ≡ true)) ⊎ Buried now kind id expected s w
unfolding begin_delete
begin_delete_outcome p done now kind id expected key s h =
    let (_, rest) = then-ok (refuse done cancelled) _ h in
    let (o, _, after) = bind-ok (replay s _ _) _ rest in
    elim (after_replay_cases s _ o after) [
      | inl (same, again, _) ↦ inl (same, again)
      | inr (_, new) ↦ inr (begin_delete_current_outcome kind id expected _ _ now s new)
    ]

pub record Purged (kind : Kind) (id : Text) (revision : ℤ) (s s' : Store) : Type 0 where
  pub current : Resource
  pub found_current : lookup s.resources kind id ≡ some current
  pub same_revision : current.meta.revision ≡ revision
  pub going : is_unavailable current.meta.state ≡ true
  pub free : is_referenced s.resources kind id ≡ false
  pub idle : is_protected s.resources kind id ≡ false
  pub after : s' ≡ record s { resources = remove s.resources kind id }

-- A purge either found nothing, or has removed a row that was marked, free and idle.
pub purge_outcome :
    (done : Bool) (kind : Kind) (id : Text) (revision : ℤ) (s : Store) {s' : Store}
    → purge done kind id revision s ≡ ok s'
    → ((lookup s.resources kind id ≡ none) × (s' ≡ s)) ⊎ Purged kind id revision s s'
unfolding purge purge_found check_purge
purge_outcome done kind id revision s {s'} h =
    let (_, rest) =
      then-ok (refuse done cancelled) (purge_found kind id revision s (lookup s.resources kind id))
        h in
    elim (Option-cases (lookup s.resources kind id)) [
      | inl e ↦ inl (e, ground arith)
      | inr (current, e) ↦ inr (record {
        current = current;
        found_current = e;
        same_revision = ground arith;
        going = ground arith;
        free = ground arith;
        idle = ground arith;
        after = ground arith;
      })
    ]
