-- ===== src/Examples/Data/Work.antt =====
-- A reconcile of the network and its fates, a node, and what else the histories create.
use proxmox_ovn.Prelude.{ℕ, true, false, [], ◌∷◌, Option, none, some, pos}
use proxmox_ovn.Text.{Text, text}
use proxmox_ovn.Model.Kind.{Kind}
use proxmox_ovn.Model.Resource.{
  Resource, ResourceState, Body, Operation, OperationStatus, Node, subnet, operation, node,
}
use proxmox_ovn.Store.Idempotency.{Store}
use proxmox_ovn.Examples.Data.Networks.{
  request, stored, a_network, blue_row, green_row, remembered, blue_store, going_store, going_row,
}

-- A reconcile of the blue network, as it is queued and as it runs under a claim at time 10.
abbrev pub reconcile : OperationStatus → Text → Option ℕ → Operation
reconcile status owner started = record {
  action = text "reconcile";
  target_kind = some Kind.network;
  target_id = text "n";
  target_revision = pos 1;
  operation_status = status;
  idempotency_key = text "r";
  error = [];
  lease_owner = owner;
  started_at = started;
  completed_at = none;
  payload = [];
}

abbrev pub queued_row : Resource
queued_row = record {
  meta = stored (text "o") (pos 1) (pos 0) ResourceState.pending 6 6;
  body = operation (reconcile OperationStatus.queued [] none);
}

abbrev pub running_row : Resource
running_row = record {
  meta = stored (text "o") (pos 2) (pos 0) ResourceState.pending 6 10;
  body = operation (reconcile OperationStatus.running (text "alice") (some 10));
}

abbrev pub queued_store : Store
queued_store = record { resources = blue_row ∷ queued_row ∷ []; idempotency = [] }

abbrev pub running_store : Store
running_store = record { resources = blue_row ∷ running_row ∷ []; idempotency = [] }

-- Bob has taken the expired lease over at time 20.
abbrev pub taken_row : Resource
taken_row = record {
  meta = stored (text "o") (pos 3) (pos 0) ResourceState.pending 6 20;
  body = operation (reconcile OperationStatus.running (text "bob") (some 20));
}

abbrev pub taken_store : Store
taken_store = record { resources = blue_row ∷ taken_row ∷ []; idempotency = [] }

abbrev pub renewed_row_11 : Resource
renewed_row_11 = record {
  meta = stored (text "o") (pos 3) (pos 0) ResourceState.pending 6 11;
  body = operation (reconcile OperationStatus.running (text "alice") (some 10));
}

abbrev pub renewed_store : Store
renewed_store = record { resources = blue_row ∷ renewed_row_11 ∷ []; idempotency = [] }

-- The operation, failed at time 20 with this error.
abbrev failed_at_20 : Text → Resource
failed_at_20 error = record {
  meta = stored (text "o") (pos 3) (pos 0) ResourceState.pending 6 20;
  body = operation (record (reconcile OperationStatus.failed (text "alice") (some 10)) {
    error = error;
    completed_at = some 20;
  });
}

abbrev pub fenced_store : Store
fenced_store = record {
  resources =
      blue_row ∷ failed_at_20 (text "reconcile lease expired while target was deleting") ∷ [];
  idempotency = [];
}

abbrev pub recovered_store : Store
recovered_store = record {
  resources = blue_row ∷ failed_at_20 (text "operation lease expired before completion") ∷ [];
  idempotency = [];
}

abbrev pub ready_row : Resource
ready_row = record {
  meta = stored (text "n") (pos 1) (pos 1) ResourceState.ready 5 9;
  body = a_network (text "blue") (pos 1400);
}

abbrev pub ready_store : Store
ready_store = record { resources = ready_row ∷ []; idempotency = blue_store.idempotency }

abbrev pub gone_store : Store
gone_store = record { resources = []; idempotency = going_store.idempotency }

-- The tombstone with a reconcile that has failed.
abbrev pub ended_operation : Operation
ended_operation = reconcile OperationStatus.failed (text "alice") (some 10)

abbrev pub ended_row : Resource
ended_row = record {
  meta = stored (text "o") (pos 3) (pos 0) ResourceState.pending 6 20;
  body = operation ended_operation;
}

abbrev pub audited_store : Store
audited_store = record { resources = going_row ∷ ended_row ∷ []; idempotency = [] }

abbrev pub cleared_store : Store
cleared_store = record { resources = ended_row ∷ []; idempotency = [] }

-- A reconcile of a former revision that has ended at 20, on the network as it is after an update.
abbrev pub ended_store : Store
ended_store = record {
  resources = green_row ∷ failed_at_20 [] ∷ [];
  idempotency = remembered (text "create/operation//r") 1 (failed_at_20 []) false ∷ [];
}

abbrev pub pruned_store : Store
pruned_store = record { resources = green_row ∷ []; idempotency = [] }

-- A node, before and after a heartbeat at 9.
abbrev pub node_value : Node
node_value = record {
  name = text "h";
  chassis_id = text "c";
  management_address = [];
  roles = [];
  enabled = true;
  last_seen_at = none;
}

abbrev pub node_row : Resource
node_row = record {
  meta = stored (text "h") (pos 1) (pos 0) ResourceState.pending 5 5;
  body = node node_value;
}

abbrev pub seen_row : Resource
seen_row = record {
  meta = node_row.meta;
  body = node (record node_value { last_seen_at = some 9 });
}

abbrev pub node_store : Store
node_store = record { resources = node_row ∷ []; idempotency = [] }

abbrev pub seen_store : Store
seen_store = record { resources = seen_row ∷ []; idempotency = [] }

-- The blue network alone, with another network, with a subnet, and with its reconcile.
abbrev pub red : Resource
red = record { meta = request (text "m"); body = a_network (text "red") (pos 0) }

abbrev pub red_row : Resource
red_row = record {
  meta = stored (text "m") (pos 1) (pos 0) ResourceState.pending 6 6;
  body = a_network (text "red") (pos 1400);
}

abbrev pub lan : Body
lan = subnet (record {
  network_id = text "n";
  name = text "lan";
  cidr = text "10.0.0.0/24";
  gateway_ip = [];
  enable_dhcp = true;
  dns_nameservers = [];
  dns_domain = [];
  dns_search_domains = [];
  allocation_pools = [];
})

abbrev pub lan_row : Resource
lan_row = record { meta = stored (text "s") (pos 1) (pos 0) ResourceState.pending 6 6; body = lan }

abbrev pub queued : Resource
queued = record {
  meta = request (text "o");
  body = operation (reconcile OperationStatus.unset [] none);
}

abbrev pub only_blue : Store
only_blue = record { resources = blue_row ∷ []; idempotency = [] }

abbrev pub red_store : Store
red_store = record { resources = blue_row ∷ red_row ∷ []; idempotency = [] }

abbrev pub lan_store : Store
lan_store = record { resources = blue_row ∷ lan_row ∷ []; idempotency = [] }
