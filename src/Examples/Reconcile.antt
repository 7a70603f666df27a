-- ===== src/Examples/Reconcile.antt =====
-- Runs of the controller over a network, with a log as the state behind the renderer, and the
-- theorems on the controller applied to them.
use proxmox_ovn.Prelude.{◌+◌, ◌≡◌, refl, Bool, true, false, List, [], ◌∷◌, none, some, any, ℤ, pos}
use proxmox_ovn.Text.{Text, text, text_beq, decimal}
use proxmox_ovn.Result.{ok}
use proxmox_ovn.Model.Kind.{Kind, string}
use proxmox_ovn.Model.Resource.{Resource, Operation, OperationStatus, operation, ResourceState}
use proxmox_ovn.Store.Table.{Row, lookup, has_key}
use proxmox_ovn.Store.Idempotency.{Store, replay, find_record, fingerprint, idempotency_scope}
use proxmox_ovn.Store.Create.{create, after_replay}
use proxmox_ovn.Reconcile.World.{World, Environment}
use proxmox_ovn.Reconcile.Work.{is_deleting, render_until_stable}
use proxmox_ovn.Reconcile.Decisions.{is_realized, operation_key, queued_operation}
use proxmox_ovn.Reconcile.Controller.{Controller, reconcile}
use proxmox_ovn.Reconcile.Audit.{reconcile_all}
use proxmox_ovn.Reconcile.Histories.{reconcile_all_spares_tombstones}
use proxmox_ovn.Reconcile.Quiet.{IsQuiet}
use proxmox_ovn.Reconcile.Convergence.{render_until_stable_converges}
use proxmox_ovn.Reconcile.Trust.{operation_on, reconcile_trusts_operation}
use proxmox_ovn.Examples.Data.{platform, blue_row, blue_store, stored}

-- What was rendered, at which revision and whether as a tombstone, and what was deleted.
pub data Event : Type 0 where
  drawn : Text → ℤ → Bool → Event
  erased : Text → ℤ → Event

abbrev pub logging : Environment (List Event)
logging = record {
  platform = platform;
  others = λ n s b. (s, b);
  render = λ done r b. (none, drawn r.meta.id r.meta.revision (is_deleting r) ∷ b);
  delete_rendered = λ done r b. (none, erased r.meta.id r.meta.revision ∷ b);
  now = λ n. 1000 + n;
  new_owner = λ n. text "owner";
  new_id = λ n. (97 + n) ∷ [];
  done = λ n. false;
  completion_done = λ n. false;
  beats = λ n. 0;
  error_text = λ e. [];
}

abbrev pub manager : Controller
manager = record { lease = 300; keep = pos 1000; age = 86400 }

abbrev world_of : Store → World (List Event)
world_of s = record { store = s; backend = []; calls = 0; heartbeat = none }

logging-IsQuiet : IsQuiet logging
logging-IsQuiet = record {
  alone = λ n s b. refl;
  open_context = λ n. refl;
  silent = λ n. refl;
  renders = λ r b. refl;
}

abbrev renders_tombstone : Event → Bool
renders_tombstone (drawn id revision tombstone) = tombstone
renders_tombstone (erased id revision) = false

live_rendering :
    (done : Bool) (r : Resource) (b : List Event)
    → is_deleting r ≡ false
    → any renders_tombstone b ≡ false
    → any renders_tombstone (logging.render done r b).1 ≡ false
live_rendering done r b live h = rw live h

reconcile_all_spares_tombstones_example :
    any renders_tombstone (reconcile_all logging manager 0 (world_of blue_store)).1.backend ≡ false
reconcile_all_spares_tombstones_example =
    reconcile_all_spares_tombstones logging manager (λ b. any renders_tombstone b ≡ false)
      (λ n s b q. q) live_rendering (λ done r b q. q) 0 (world_of blue_store) refl

blue_there : lookup blue_store.resources Kind.network (text "n") ≡ some blue_row
unfolding lookup has_key text_beq
blue_there = refl

blue_alive : is_deleting blue_row ≡ false
unfolding is_deleting
blue_alive = refl

render_until_stable_converges_example :
    ((render_until_stable logging blue_row (world_of blue_store)).0 ≡ (none, none))
    × ((render_until_stable logging blue_row (world_of blue_store)).1.backend
        ≡ drawn (text "n") (pos 1) (is_deleting blue_row) ∷ [])
    × ((row : Resource) × (lookup
            (render_until_stable logging blue_row (world_of blue_store)).1.store.resources
            Kind.network
            (text "n")
          ≡ some row)
        × (row.meta.revision ≡ pos 1)
        × (is_realized row.meta ≡ true))
render_until_stable_converges_example =
    render_until_stable_converges logging blue_row (world_of blue_store) logging-IsQuiet refl
      blue_alive blue_there

-- The network stands again at revision 1, and the operation on an earlier one has succeeded.
abbrev done_operation : Operation
done_operation = record {
  action = text "reconcile";
  target_kind = some Kind.network;
  target_id = text "n";
  target_revision = pos 1;
  operation_status = OperationStatus.succeeded;
  idempotency_key = text "reconcile:network:n:1";
  error = [];
  lease_owner = text "owner";
  started_at = some 2;
  completed_at = some 3;
  payload = [];
}

abbrev done_row : Row Operation
done_row = record {
  meta = stored (text "o") (pos 3) (pos 0) ResourceState.pending 1 3;
  value = done_operation;
}

abbrev done_resource : Resource
done_resource = record { meta = done_row.meta; body = operation done_operation }

abbrev known_store : Store
known_store = record {
  resources = blue_row ∷ done_resource ∷ [];
  idempotency =
      (
        text "create/operation//reconcile:network:n:1",
        record {
          fingerprint = fingerprint platform (operation_on blue_row) [];
          resource = done_resource;
          deleted = false;
        },
      )
      ∷ [];
}

known_request :
    create platform false 1001
      (98 ∷ [])
      (operation_on blue_row)
      (operation_key Kind.network (text "n") (pos 1))
      known_store
    ≡ ok (record { resource = done_resource; replayed = true; store = known_store })
unfolding create replay find_record idempotency_scope after_replay operation_on queued_operation
    operation_key string decimal text_beq fingerprint
known_request = refl

blue_found : lookup known_store.resources Kind.network (text "n") ≡ some blue_row
unfolding lookup has_key text_beq
blue_found = refl

operation_found : lookup known_store.resources Kind.operation (text "o") ≡ some done_resource
unfolding lookup has_key text_beq
operation_found = refl

blue_pending : is_realized blue_row.meta ≡ false
unfolding is_realized
blue_pending = refl

reconcile_trusts_operation_example :
    ((reconcile logging manager false 0 Kind.network (text "n") (world_of known_store)).0 ≡ none)
    × ((reconcile logging manager false 0 Kind.network (text "n") (world_of known_store)).1.backend
        ≡ [])
    × ((row : Resource) × (lookup
            (reconcile logging manager false 0 Kind.network
              (text "n")
              (world_of known_store)).1.store.resources
            Kind.network
            (text "n")
          ≡ some row)
        × (is_realized row.meta ≡ true))
reconcile_trusts_operation_example =
    reconcile_trusts_operation logging manager blue_row done_resource done_resource done_row
      done_row (world_of known_store) logging-IsQuiet refl blue_found blue_alive blue_pending
      known_request refl operation_found refl refl
