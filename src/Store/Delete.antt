-- ===== src/Store/Delete.antt =====
-- Memory.BeginDelete, Purge and Delete.
use proxmox_ovn.Prelude.{
  ℕ, Bool, true, false, ◌&&◌, [], Option, none, some, any, ℤ, increment, int_eq, ◌==◌,
}
use proxmox_ovn.Text.{Text, text, text_eq}
use proxmox_ovn.Platform.{Platform}
use proxmox_ovn.Result.{
  Check, Result, ok, cancelled, conflict, not_found, precondition, ◌>>=◌, ◌>>◌, refuse, guard,
  or_fail,
}
use proxmox_ovn.Model.Kind.{Kind, kind_eq}
use proxmox_ovn.Model.Resource.{Resource, ResourceState, Operation}
use proxmox_ovn.Model.Defaults.{mark_pending}
use proxmox_ovn.Model.Validation.Policy.{is_running}
use proxmox_ovn.Store.Table.{Table, Row, rows, lookup, put, remove, operation?}
use proxmox_ovn.Store.Referrers.{is_referenced, is_unavailable}
use proxmox_ovn.Store.Idempotency.{Store, delete_fingerprint, idempotency_scope, replay, remember}
use proxmox_ovn.Store.Create.{Written, after_replay}
use proxmox_ovn.Store.Update.{stale}

-- The row that marks its resource as going.
unfoldable pub tombstone_of : ℕ → Resource → Resource
tombstone_of now current = record {
  meta = record current.meta {
    revision = increment current.meta.revision;
    state = ResourceState.deleting;
    last_error = [];
    updated_at = now;
  };
  body = mark_pending current.body;
}

unfoldable pub begin_delete_current : Kind → Text → ℤ → ℕ → Text → ℕ → Store → Result Written
begin_delete_current kind id expected print scope now s = do
  current ← or_fail (lookup s.resources kind id) not_found
  refuse (stale expected current.meta.revision) precondition
  refuse (is_referenced s.resources kind id) conflict
  let tombstone = tombstone_of now current
  let next = record s { resources = put s.resources tombstone }
  ok (record {
    resource = tombstone;
    replayed = false;
    store = remember next scope print tombstone true;
  })

unfoldable pub begin_delete : Platform → Bool → ℕ → Kind → Text → ℤ → Text → Store → Result Written
begin_delete platform done now kind id expected key s = do
  refuse done cancelled
  let print = delete_fingerprint platform id expected
  let scope = idempotency_scope (text "delete") kind id key
  replayed ← replay s scope print
  after_replay s (begin_delete_current kind id expected print scope now s) replayed

unfoldable pub targets : Option Kind → Kind → Bool
targets none kind = false
targets (some k) kind = k == kind

-- A running operation on the resource.
unfoldable pub is_protected : Table → Kind → Text → Bool
is_protected t kind id =
    any
      (λ (o : Row Operation).
        targets o.value.target_kind kind
        && o.value.target_id == id
        && is_running o.value.operation_status)
      (rows operation? t)

unfoldable pub check_purge : Table → Kind → Text → ℤ → Resource → Check
check_purge t kind id deletion_revision current = do
  guard (current.meta.revision == deletion_revision) precondition
  guard (is_unavailable current.meta.state) conflict
  refuse (is_referenced t kind id) conflict
  refuse (is_protected t kind id) conflict

unfoldable pub purge_found : Kind → Text → ℤ → Store → Option Resource → Result Store
purge_found kind id deletion_revision s none = ok s
purge_found kind id deletion_revision s (some current) = do
  check_purge s.resources kind id deletion_revision current
  ok (record s { resources = remove s.resources kind id })

-- Purge: what is gone already is no error
unfoldable pub purge : Bool → Kind → Text → ℤ → Store → Result Store
purge done kind id deletion_revision s = do
  refuse done cancelled
  purge_found kind id deletion_revision s (lookup s.resources kind id)

-- Delete: the replay flag and the store after it
unfoldable pub delete : Platform → Bool → ℕ → Kind → Text → ℤ → Text → Store → Result (Bool × Store)
delete platform done now kind id expected key s = do
  w ← begin_delete platform done now kind id expected key s
  s' ← purge done kind id w.resource.meta.revision w.store
  ok (w.replayed, s')
