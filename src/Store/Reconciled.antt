-- ===== src/Store/Reconciled.antt =====
-- Memory.MarkReconciled and ObserveNodeHeartbeat: what the renderer and the nodes report.
pub mod Reports
use proxmox_ovn.Prelude.{
  ℕ, Bool, true, false, not, ◌&&◌, ◌||◌, List, [], Option, none, some, ℤ, ltb_ℤ, int_eq, leb,
  nat_beq, ◌==◌, if◌then◌else◌,
}
use proxmox_ovn.Text.{Text, is_empty}
use proxmox_ovn.Result.{
  Result, ok, err, Error, cancelled, conflict, not_found, precondition, ◌>>=◌, ◌>>◌, refuse,
  or_fail,
}
use proxmox_ovn.Model.Kind.{Kind}
use proxmox_ovn.Model.Resource.{Metadata, Resource, ResourceState, Node, Body, node}
use proxmox_ovn.Model.Defaults.{mark_floating_reconciled}
use proxmox_ovn.Store.Table.{Row, lookup, cast_found, put, node?}
use proxmox_ovn.Store.Idempotency.{Store}
use proxmox_ovn.Store.Update.{stale}

-- The row after a failed rendering: nothing changes unless the revision is the current one.
unfoldable pub failed_rendering : ℤ → Text → ℕ → Resource → Resource
failed_rendering revision message now r =
    if revision == r.meta.revision
    then record {
      meta = record r.meta { state = ResourceState.error; last_error = message; updated_at = now };
      body = mark_floating_reconciled true r.body;
    }
    else r

-- The row after a rendering that succeeded.
unfoldable pub applied_rendering : ℤ → ℕ → Resource → Resource
applied_rendering revision now r =
    let applied =
      if ltb_ℤ r.meta.applied_revision revision then revision else r.meta.applied_revision in
    if revision == r.meta.revision
    then record {
      meta = record r.meta {
        applied_revision = applied;
        state = ResourceState.ready;
        last_error = [];
        updated_at = now;
      };
      body = mark_floating_reconciled false r.body;
    }
    else record r { meta = record r.meta { applied_revision = applied } }

-- renderErr is nil, or an error with its message.
unfoldable pub rendered : ℤ → Option Text → ℕ → Resource → Resource
rendered revision none now r = applied_rendering revision now r
rendered revision (some message) now r = failed_rendering revision message now r

-- MarkReconciled: the row is changed in place
unfoldable pub mark_reconciled :
    Bool → ℕ → Kind → Text → ℤ → Option Text → Store → Result (Resource × Store)
mark_reconciled done now kind id revision render_err s = do
  refuse done cancelled
  r ← or_fail (lookup s.resources kind id) not_found
  refuse (ltb_ℤ r.meta.revision revision) precondition
  let row = rendered revision render_err now r
  ok (row, record s { resources = put s.resources row })

-- LastSeenAt != nil && !LastSeenAt.Before(observedAt)
unfoldable pub seen_since : Option ℕ → ℕ → Bool
seen_since none observed_at = false
seen_since (some last) observed_at = leb observed_at last

unfoldable pub observe_row : Row Node → ℕ → Resource
observe_row stored observed_at = record {
  meta = stored.meta;
  body = node (
      if seen_since stored.value.last_seen_at observed_at
      then stored.value
      else record stored.value { last_seen_at = some observed_at });
}

-- ObserveNodeHeartbeat: an older observation changes nothing
unfoldable pub observe_node_heartbeat : Bool → Text → ℤ → ℕ → Store → Result (Resource × Store)
observe_node_heartbeat done id expected observed_at s = do
  refuse done cancelled
  refuse (is_empty id || nat_beq observed_at 0) conflict
  stored ← or_fail (cast_found node? (lookup s.resources Kind.node id)) not_found
  refuse (stale expected stored.meta.revision) precondition
  let row = observe_row stored observed_at
  ok (
    row,
    if seen_since stored.value.last_seen_at observed_at
        then s
        else record s { resources = put s.resources row },
  )
