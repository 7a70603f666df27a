-- ===== src/Store/Create.antt =====
-- Memory.Create. The clock's reading and the id that the generator would give are arguments.
use proxmox_ovn.Prelude.{
  ℕ, Bool, true, false, not, ◌&&◌, [], ◌++◌, Option, none, some, pos, if◌then◌else◌,
}
use proxmox_ovn.Text.{Text, text, is_empty}
use proxmox_ovn.Platform.{Platform}
use proxmox_ovn.Result.{Check, Result, ok, cancelled, conflict, already_exists, ◌>>=◌, ◌>>◌, refuse}
use proxmox_ovn.Model.Resource.{
  Resource, ResourceState, resource_kind, Body, port, operation, OperationStatus,
}
use proxmox_ovn.Model.Defaults.{set_defaults, mark_pending}
use proxmox_ovn.Model.Validation.Policy.{lease_protected_action}
use proxmox_ovn.Model.Validation.Whole.{validate}
use proxmox_ovn.Store.Table.{lookup, put, found}
use proxmox_ovn.Store.References.{validate_references}
use proxmox_ovn.Store.Referrers.{validate_new_reference_states}
use proxmox_ovn.Store.Unique.{validate_unique}
use proxmox_ovn.Store.Idempotency.{Store, fingerprint, idempotency_scope, replay, remember}

-- What a write answers, and the store after it.
pub record Written : Type 0 where
  pub resource : Resource
  pub replayed : Bool
  pub store : Store

-- The method's own key serves an operation that has none.
unfoldable pub operation_key : Text → Body → Body
operation_key key (operation o) =
    operation
      (record o { idempotency_key = if is_empty o.idempotency_key then key else o.idempotency_key })
operation_key key body = body

abbrev queued_or_unset : OperationStatus → Bool
queued_or_unset OperationStatus.unset = true
queued_or_unset OperationStatus.queued = true
queued_or_unset _ = false

-- A lease-protected operation that is not to start queued.
unfoldable pub starts_started : Body → Bool
starts_started (operation o) =
    lease_protected_action o.action && not (queued_or_unset o.operation_status)
starts_started _ = false

unfoldable pub name_port : Text → Body → Body
name_port id (port p) =
    port (record p { lsp_name = if is_empty p.lsp_name then text "pvn-" ++ id else p.lsp_name })
name_port id body = body

-- The resource as it is checked: with its id, its defaults and a pending floating status.
unfoldable pub prepare_create : Platform → Text → Text → Resource → Resource
prepare_create platform key new_id r =
    let id = if is_empty r.meta.id then new_id else r.meta.id in
    let copy =
      set_defaults platform
        (record { meta = record r.meta { id = id }; body = operation_key key r.body }) in
    record copy { body = mark_pending copy.body }

-- The metadata of a new resource.
unfoldable pub stamp_create : ℕ → Resource → Resource
stamp_create now copy = record {
  meta = record {
    id = copy.meta.id;
    revision = pos 1;
    applied_revision = pos 0;
    state = ResourceState.pending;
    last_error = [];
    created_at = now;
    updated_at = now;
  };
  body = name_port copy.meta.id copy.body;
}

-- The checks of a resource that is to be created.
unfoldable pub check_create : Platform → Store → Resource → Check
check_create platform s copy = do
  refuse (found (lookup s.resources (resource_kind copy) copy.meta.id)) already_exists
  validate platform copy.body
  validate_references s.resources copy
  validate_new_reference_states s.resources copy.body none
  validate_unique s.resources copy []

unfoldable pub create_new :
    Platform → Text → ℕ → Text → ℕ → Text → Resource → Store → Result Written
create_new platform key print scope now new_id r s = do
  refuse (starts_started r.body) conflict
  let copy = prepare_create platform key new_id r
  check_create platform s copy
  let stored = stamp_create now copy
  let next = record s { resources = put s.resources stored }
  ok (record {
    resource = stored;
    replayed = false;
    store = remember next scope print stored false;
  })

-- The answer to a repeated request is the remembered resource.
unfoldable pub after_replay : Store → Result Written → Option Resource → Result Written
after_replay s new none = new
after_replay s new (some r) = ok (record { resource = r; replayed = true; store = s })

-- Create; `done` tells that the context has ended
unfoldable pub create : Platform → Bool → ℕ → Text → Resource → Text → Store → Result Written
create platform done now new_id r key s = do
  refuse done cancelled
  let print = fingerprint platform r []
  let scope = idempotency_scope (text "create") (resource_kind r) [] key
  replayed ← replay s scope print
  after_replay s (create_new platform key print scope now new_id r s) replayed
