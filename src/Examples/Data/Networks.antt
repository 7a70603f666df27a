-- ===== src/Examples/Data/Networks.antt =====
-- A platform with a small digest, and one network through its life.
use proxmox_ovn.Prelude.{
  ℕ, ◌+◌, ◌*◌, ◌%◌, ◌^◌, Bool, true, false, [], ◌∷◌, ◌++◌, none, some, ℤ, pos,
}
use proxmox_ovn.Text.{Text, text}
use proxmox_ovn.Platform.{Platform}
use proxmox_ovn.Model.Resource.{Metadata, Resource, ResourceState, Body, network, operation}
use proxmox_ovn.Store.Idempotency.{Store, IdempotencyRecord}

abbrev pub digest : Text → ℕ
digest [] = 7
digest (c ∷ s) = (c + 31 * digest s) % 2 ^ 32

abbrev name_of : Body → Text
name_of (network n) = n.name
name_of (operation o) = o.action
name_of _ = []

abbrev pub platform : Platform
platform = record {
  marshal = λ r. r.meta.id ++ name_of r.body;
  sha256 = digest;
  canonical_json = some;
  ipv6_addr_string = λ s. none;
  ipv6_prefix_string = λ s. none;
}

-- Metadata of a request: the id alone.
abbrev pub request : Text → Metadata
request id = record {
  id = id;
  revision = pos 0;
  applied_revision = pos 0;
  state = ResourceState.unset;
  last_error = [];
  created_at = 0;
  updated_at = 0;
}

abbrev pub stored : Text → ℤ → ℤ → ResourceState → ℕ → ℕ → Metadata
stored id revision applied state created updated = record {
  id = id;
  revision = revision;
  applied_revision = applied;
  state = state;
  last_error = [];
  created_at = created;
  updated_at = updated;
}

abbrev pub a_network : Text → ℤ → Body
a_network name mtu = network (record {
  name = name;
  description = [];
  mtu = mtu;
  external = false;
  provider_network_id = [];
})

abbrev pub blue : Resource
blue = record { meta = request (text "n"); body = a_network (text "blue") (pos 0) }

abbrev pub green : Resource
green = record { meta = request (text "n"); body = a_network (text "green") (pos 0) }

-- The network after its creation at time 5, after an update at 6, and after the mark at 7.
abbrev pub blue_row : Resource
blue_row = record {
  meta = stored (text "n") (pos 1) (pos 0) ResourceState.pending 5 5;
  body = a_network (text "blue") (pos 1400);
}

abbrev pub green_row : Resource
green_row = record {
  meta = stored (text "n") (pos 2) (pos 0) ResourceState.pending 5 6;
  body = a_network (text "green") (pos 1400);
}

-- The network after one more update at 8.
abbrev pub greener : Resource
greener = record { meta = request (text "n"); body = a_network (text "greener") (pos 0) }

abbrev pub greener_row : Resource
greener_row = record {
  meta = stored (text "n") (pos 3) (pos 0) ResourceState.pending 5 8;
  body = a_network (text "greener") (pos 1400);
}

abbrev pub going_row : Resource
going_row = record {
  meta = stored (text "n") (pos 3) (pos 0) ResourceState.deleting 5 7;
  body = a_network (text "green") (pos 1400);
}

abbrev pub remembered : Text → ℕ → Resource → Bool → Text × IdempotencyRecord
remembered scope print r deleted =
    (scope, record { fingerprint = print; resource = r; deleted = deleted })

abbrev pub blue_store : Store
blue_store = record {
  resources = blue_row ∷ [];
  idempotency = remembered (text "create/network//k") (digest (text "nblue")) blue_row false ∷ [];
}

abbrev pub green_store : Store
green_store = record {
  resources = green_row ∷ [];
  idempotency =
      remembered (text "create/network//k") (digest (text "nblue")) blue_row false
      ∷ remembered (text "update/network/n/k") (digest (text "ngreenexpected=1")) green_row false
      ∷ [];
}

abbrev pub greener_store : Store
greener_store = record {
  resources = greener_row ∷ [];
  idempotency =
      remembered (text "create/network//k") (digest (text "nblue")) blue_row false
      ∷ remembered (text "update/network/n/k") (digest (text "ngreenexpected=1")) green_row false
      ∷ remembered (text "update/network/n/l") (digest (text "ngreenerexpected=2")) greener_row
          false
      ∷ [];
}

abbrev pub going_store : Store
going_store = record {
  resources = going_row ∷ [];
  idempotency =
      remembered (text "create/network//k") (digest (text "nblue")) blue_row false
      ∷ remembered (text "update/network/n/k") (digest (text "ngreenexpected=1")) green_row false
      ∷ remembered (text "delete/network/n/k") (digest (text "n:2")) going_row true
      ∷ [];
}
