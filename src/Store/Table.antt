-- ===== src/Store/Table.antt =====
-- The maps of the store. `resources[kind][id]` is the first entry of that kind and id: an entry
-- is only ever written under its own kind and id. A loop over a map meets the entries in the
-- order of the list.
pub mod Laws
pub mod Found
use proxmox_ovn.Prelude.{
  ◌≡◌, refl, sym, ap, ◌∙◌, ◌↔◌, ◌⊎◌, inl, inr, Bool, true, false, ◌&&◌, List, [], ◌∷◌, Option, none,
  some, arith, if◌then◌else◌, Bool-cases,
}
use proxmox_ovn.Text.{Text, text_beq, text_beq_iff}
use proxmox_ovn.Result.{Result, Error, conflict, or_fail}
use proxmox_ovn.Model.Kind.{Kind, kind_beq, kind_beq_iff}
use proxmox_ovn.Model.Resource.{
  Metadata, Resource, Body, resource_kind, body_kind, Network, Subnet, Port, Router,
  RouterInterface, FloatingIp, ProviderNetwork, ProviderSegment, Node, Operation,
}

abbrev pub Table : Type 0
Table = List Resource

unfoldable pub has_key : Kind → Text → Resource → Bool
has_key kind id r = kind_beq (resource_kind r) kind && text_beq r.meta.id id

pub has_key_iff :
    (kind : Kind) (id : Text) (r : Resource)
    → (has_key kind id r ≡ true) ↔ ((resource_kind r ≡ kind) × (r.meta.id ≡ id))
unfolding has_key
has_key_iff kind id r =
    ground (arith, kind_beq_iff (resource_kind r) kind, text_beq_iff r.meta.id id)

-- resources[kind][id]
unfoldable pub lookup : Table → Kind → Text → Option Resource
lookup [] kind id = none
lookup (r ∷ t) kind id = if has_key kind id r then some r else lookup t kind id

-- resources[r.ResourceKind()][r.ID] = r
unfoldable pub put : Table → Resource → Table
put [] r = r ∷ []
put (x ∷ t) r = if has_key (resource_kind r) r.meta.id x then r ∷ t else x ∷ put t r

-- delete(resources[kind], id)
unfoldable pub remove : Table → Kind → Text → Table
remove [] kind id = []
remove (r ∷ t) kind id = let rest = remove t kind id in if has_key kind id r then rest else r ∷ rest

-- `_, ok := m[k]`
abbrev pub found {ℓ} : {A : Type ℓ} → Option A → Bool
found none = false
found (some _) = true

-- A resource whose kind is known.
pub record Row (A : Type 0) : Type 0 where
  pub meta : Metadata
  pub value : A

module _ {A : Type 0} where
  -- resource.(*T), where the resource is a T
  abbrev pub as_row : (Body → Option A) → Resource → Option (Row A)
  as_row cast r = elim (cast r.body) [
    | none ↦ none
    | some value ↦ some (record { meta = r.meta; value = value })
  ]

  abbrev add_row : Option (Row A) → List (Row A) → List (Row A)
  add_row none rows = rows
  add_row (some row) rows = row ∷ rows

  -- for _, resource := range resources[kind]
  unfoldable pub rows : (Body → Option A) → Table → List (Row A)
  rows cast [] = []
  rows cast (r ∷ t) = add_row (as_row cast r) (rows cast t)

  abbrev pub cast_found : (Body → Option A) → Option Resource → Option (Row A)
  cast_found cast none = none
  cast_found cast (some r) = as_row cast r

abbrev pub network? : Body → Option Network
network? (Body.network n) = some n
network? _ = none

abbrev pub subnet? : Body → Option Subnet
subnet? (Body.subnet n) = some n
subnet? _ = none

abbrev pub port? : Body → Option Port
port? (Body.port n) = some n
port? _ = none

abbrev pub router? : Body → Option Router
router? (Body.router n) = some n
router? _ = none

abbrev pub router_interface? : Body → Option RouterInterface
router_interface? (Body.router_interface n) = some n
router_interface? _ = none

abbrev pub floating_ip? : Body → Option FloatingIp
floating_ip? (Body.floating_ip n) = some n
floating_ip? _ = none

abbrev pub provider_network? : Body → Option ProviderNetwork
provider_network? (Body.provider_network n) = some n
provider_network? _ = none

abbrev pub provider_segment? : Body → Option ProviderSegment
provider_segment? (Body.provider_segment n) = some n
provider_segment? _ = none

abbrev pub node? : Body → Option Node
node? (Body.node n) = some n
node? _ = none

abbrev pub operation? : Body → Option Operation
operation? (Body.operation n) = some n
operation? _ = none

-- requireLocked: a missing target is a conflict
abbrev pub require : Table → Kind → Text → Result Resource
require t kind id = or_fail (lookup t kind id) conflict

abbrev pub require_network : Table → Text → Result (Row Network)
require_network t id = or_fail (cast_found network? (lookup t Kind.network id)) conflict

abbrev pub require_subnet : Table → Text → Result (Row Subnet)
require_subnet t id = or_fail (cast_found subnet? (lookup t Kind.subnet id)) conflict

abbrev pub require_port : Table → Text → Result (Row Port)
require_port t id = or_fail (cast_found port? (lookup t Kind.port id)) conflict

abbrev pub require_router : Table → Text → Result (Row Router)
require_router t id = or_fail (cast_found router? (lookup t Kind.router id)) conflict

abbrev pub require_node : Table → Text → Result (Row Node)
require_node t id = or_fail (cast_found node? (lookup t Kind.node id)) conflict

abbrev pub require_segment : Table → Text → Result (Row ProviderSegment)
require_segment t id =
    or_fail (cast_found provider_segment? (lookup t Kind.provider_segment id)) conflict
