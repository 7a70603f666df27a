-- ===== src/Store/Update.antt =====
-- Memory.Update.
use proxmox_ovn.Prelude.{
  ℕ, Bool, false, not, ◌&&◌, ◌||◌, [], ◌++◌, some, ℤ, pos, ltb_ℤ, increment, int_eq, ◌==◌,
}
use proxmox_ovn.Text.{Text, text, text_eq, is_empty, decimal}
use proxmox_ovn.Platform.{Platform}
use proxmox_ovn.Result.{
  Check, Result, ok, cancelled, conflict, not_found, precondition, ◌>>=◌, ◌>>◌, refuse, or_fail,
}
use proxmox_ovn.Model.Resource.{Metadata, Resource, ResourceState, resource_kind, Body, operation}
use proxmox_ovn.Model.Defaults.{set_defaults, mark_pending}
use proxmox_ovn.Model.Validation.Policy.{lease_protected_action, is_running}
use proxmox_ovn.Model.Validation.Whole.{validate}
use proxmox_ovn.Store.Table.{Table, lookup, put}
use proxmox_ovn.Store.References.{validate_references, validate_all_references}
use proxmox_ovn.Store.Referrers.{validate_new_reference_states}
use proxmox_ovn.Store.Unique.{validate_unique, validate_all_unique}
use proxmox_ovn.Store.Idempotency.{Store, fingerprint, idempotency_scope, replay, remember}
use proxmox_ovn.Store.Create.{Written, after_replay}

-- expectedRevision < 1 || current != expectedRevision
abbrev pub stale : ℤ → ℤ → Bool
stale expected current = ltb_ℤ expected (pos 1) || not (current == expected)

-- The stored operation runs under a lease of another owner.
abbrev foreign_lease : Body → Body → Bool
foreign_lease (operation stored) (operation requested) =
    lease_protected_action stored.action
    && is_running stored.operation_status
    && not (requested.lease_owner == stored.lease_owner)
foreign_lease _ _ = false

-- The request would start a lease-protected operation.
abbrev starts_running : Body → Bool
starts_running (operation o) = lease_protected_action o.action && is_running o.operation_status
starts_running _ = false

unfoldable pub prepare_update : Platform → Resource → Resource
prepare_update platform r =
    let copy = set_defaults platform r in record copy { body = mark_pending copy.body }

-- The whole graph with the replacement in place.
unfoldable pub validate_graph : Table → Check
validate_graph t = do validate_all_references t; validate_all_unique t

unfoldable pub check_update : Platform → Table → Resource → Resource → Check
check_update platform t current copy = do
  refuse (foreign_lease current.body copy.body) conflict
  refuse (starts_running copy.body) conflict
  validate platform copy.body
  validate_references t copy
  validate_new_reference_states t copy.body (some current.body)
  validate_unique t copy copy.meta.id
  validate_graph (put t copy)

-- The row that replaces the current one.
unfoldable pub stamp_update : ℕ → Metadata → Resource → Resource
stamp_update now current copy = record {
  meta = record {
    id = copy.meta.id;
    revision = increment current.revision;
    applied_revision = current.applied_revision;
    state = ResourceState.pending;
    last_error = [];
    created_at = current.created_at;
    updated_at = now;
  };
  body = copy.body;
}

-- The table after the replacement has been tried out and the current row put back.
unfoldable pub restored : Table → Resource → Resource → Table
restored t copy current = put (put t copy) current

unfoldable pub update_current : Platform → ℤ → ℕ → Text → ℕ → Resource → Store → Result Written
update_current platform expected print scope now r s = do
  current ← or_fail (lookup s.resources (resource_kind r) r.meta.id) not_found
  refuse (stale expected current.meta.revision) precondition
  let copy = prepare_update platform r
  check_update platform s.resources current copy
  let stored = stamp_update now current.meta copy
  let next = record s { resources = put (restored s.resources copy current) stored }
  ok (record {
    resource = stored;
    replayed = false;
    store = remember next scope print stored false;
  })

-- Update; `expected` is expectedRevision
unfoldable pub update : Platform → Bool → ℕ → Resource → ℤ → Text → Store → Result Written
update platform done now r expected key s = do
  refuse done cancelled
  refuse (is_empty r.meta.id) conflict
  let print = fingerprint platform r (text "expected=" ++ decimal expected)
  let scope = idempotency_scope (text "update") (resource_kind r) r.meta.id key
  replayed ← replay s scope print
  after_replay s (update_current platform expected print scope now r s) replayed
