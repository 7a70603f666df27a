-- ===== src/Store/Read.antt =====
-- Memory.Get, Snapshot, List and LookupRuntimePorts.
pub mod Listing
use proxmox_ovn.Prelude.{
  ℕ, Bool, true, false, not, ◌&&◌, ◌||◌, List, [], ◌∷◌, ◌++◌, Option, none, some, any, ℤ, pos,
  negsuc, ltb_ℤ, int_eq, ltb, nat_beq, length, take, select, sort, ◌==◌, if◌then◌else◌,
}
use proxmox_ovn.Text.{Text, text_eq, text_lt, is_empty}
use proxmox_ovn.Result.{
  Result, ok, err, Error, cancelled, conflict, not_found, ◌>>=◌, ◌>>◌, refuse, or_fail,
}
use proxmox_ovn.Model.Kind.{Kind, kind_eq}
use proxmox_ovn.Model.Patterns.{parse_requested_chassis}
use proxmox_ovn.Model.Resource.{
  Resource, resource_kind, FixedIp, Port, Node, Body, network, subnet, port, ip_allocation, router,
  router_interface, floating_ip, provider_network, provider_segment, security_group,
  security_group_rule, node, operation,
}
use proxmox_ovn.Store.Table.{Table, Row, rows, lookup, node?, port?}
use proxmox_ovn.Store.Idempotency.{Store}
use proxmox_ovn.Store.Retention.{to_ℕ}

pub record ListOptions : Type 0 where
  pub network_id : Text
  pub subnet_id : Text
  pub router_id : Text
  pub security_group_id : Text
  pub provider_network_id : Text
  pub node_id : Text
  pub vmid : ℤ
  pub nic : Text
  pub recent_first : Bool
  pub limit : ℤ

unfoldable pub resource_references_subnet : Body → Text → Bool
resource_references_subnet (port value) id =
    any (λ (fixed : FixedIp). fixed.subnet_id == id) value.fixed_ips
resource_references_subnet (ip_allocation value) id = value.subnet_id == id
resource_references_subnet (router_interface value) id = value.subnet_id == id
resource_references_subnet _ id = false

unfoldable pub resource_references_router : Body → Text → Bool
resource_references_router (router_interface value) id = value.router_id == id
resource_references_router (floating_ip value) id = value.router_id == id
resource_references_router _ id = false

unfoldable pub resource_references_security_group : Body → Text → Bool
resource_references_security_group (security_group_rule value) id = value.security_group_id == id
resource_references_security_group (port value) id =
    any (λ group_id. group_id == id) value.security_group_ids
resource_references_security_group _ id = false

unfoldable pub resource_references_provider_network : Body → Text → Bool
resource_references_provider_network (network value) id = value.provider_network_id == id
resource_references_provider_network (provider_segment value) id = value.provider_network_id == id
resource_references_provider_network (floating_ip value) id = value.provider_network_id == id
resource_references_provider_network _ id = false

pub record ResourceFields : Type 0 where
  pub network_id : Text
  pub node_id : Text
  pub vmid : ℤ
  pub nic : Text

unfoldable pub resource_fields : Body → ResourceFields
resource_fields (subnet value) = record {
  network_id = value.network_id;
  node_id = [];
  vmid = pos 0;
  nic = [];
}
resource_fields (port value) = record {
  network_id = value.network_id;
  node_id = value.node_id;
  vmid = value.vmid;
  nic = value.nic;
}
resource_fields _ = record { network_id = []; node_id = []; vmid = pos 0; nic = [] }

-- A filter that is not set lets everything through.
abbrev filter_by : Text → Bool → Bool
filter_by wanted b = is_empty wanted || b

unfoldable pub matches : Body → ListOptions → Bool
unfolding resource_fields resource_references_subnet resource_references_router
    resource_references_security_group resource_references_provider_network
matches body options =
    let fields = resource_fields body in
    filter_by options.network_id (fields.network_id == options.network_id)
    && filter_by options.node_id (fields.node_id == options.node_id)
    && (options.vmid == pos 0 || fields.vmid == options.vmid)
    && filter_by options.nic (fields.nic == options.nic)
    && filter_by options.subnet_id (resource_references_subnet body options.subnet_id)
    && filter_by options.router_id (resource_references_router body options.router_id)
    && filter_by options.security_group_id
        (resource_references_security_group body options.security_group_id)
    && filter_by options.provider_network_id
        (resource_references_provider_network body options.provider_network_id)

unfoldable pub get : Bool → Kind → Text → Store → Result Resource
get done kind id s = do refuse done cancelled; or_fail (lookup s.resources kind id) not_found

-- The order of Snapshot.
unfoldable pub listed_before : Bool → Resource → Resource → Bool
listed_before recent_first left right =
    if recent_first && not (nat_beq left.meta.created_at right.meta.created_at)
    then ltb right.meta.created_at left.meta.created_at
    else text_lt left.meta.id right.meta.id

unfoldable pub limited : ℤ → List Resource → List Resource
limited limit resources =
    if ltb_ℤ (pos 0) limit && ltb (to_ℕ limit) (length resources)
    then take (to_ℕ limit) resources
    else resources

-- What Snapshot lists of one kind.
unfoldable pub snapshot_kind : Table → ListOptions → Kind → List Resource
unfolding listed_before limited
snapshot_kind t options kind = limited options.limit (
    sort (listed_before options.recent_first)
      (select (λ (r : Resource). resource_kind r == kind && matches r.body options) t))

-- The requested kinds, each once.
unfoldable pub requested_kinds : List Kind → List Kind → List Kind
requested_kinds seen [] = []
requested_kinds seen (kind ∷ ks) =
    let rest = requested_kinds seen ks in
    let first = kind ∷ requested_kinds (kind ∷ seen) ks in
    if any (λ other. other == kind) seen then rest else first

unfoldable pub tabulate : Table → ListOptions → List Kind → List (Kind × List Resource)
unfolding snapshot_kind
tabulate t options [] = []
tabulate t options (kind ∷ ks) = (kind, snapshot_kind t options kind) ∷ tabulate t options ks

-- Snapshot: the lists, each under its kind
unfoldable pub snapshot :
    Bool → List Kind → ListOptions → Store → Result (List (Kind × List Resource))
unfolding requested_kinds tabulate
snapshot done wanted options s = do
  refuse done cancelled
  refuse (ltb_ℤ options.limit (pos 0)) conflict
  ok (tabulate s.resources options (requested_kinds [] wanted))

-- The names of the nodes that the identity names, and the identity itself.
accepted_nodes : Text → List (Row Node) → List Text
accepted_nodes identity [] = identity ∷ []
accepted_nodes identity (n ∷ nodes) =
    let rest = accepted_nodes identity nodes in
    if n.meta.id == identity || n.value.name == identity || n.value.chassis_id == identity
    then n.meta.id ∷ n.value.name ∷ n.value.chassis_id ∷ rest
    else rest

abbrev is_accepted : List Text → Text → Bool
is_accepted accepted name = any (λ other. other == name) accepted

-- requestedChassisOrEmpty
requested_chassis_or_empty : Text → List Text
requested_chassis_or_empty value = elim (parse_requested_chassis value) [
  | none ↦ []
  | some requested ↦ requested
]

is_runtime_port : List Text → ℤ → Text → Row Port → Bool
unfolding requested_chassis_or_empty
is_runtime_port accepted vmid nic p =
    p.value.vmid == vmid
    && p.value.nic == nic
    && (is_accepted accepted p.value.node_id
        || any (is_accepted accepted) (requested_chassis_or_empty p.value.requested_chassis))

-- LookupRuntimePorts
unfoldable pub lookup_runtime_ports : Bool → Text → ℤ → Text → Store → Result (List (Row Port))
unfolding accepted_nodes is_runtime_port
lookup_runtime_ports done node_identity vmid nic s = do
  refuse done cancelled
  let accepted = accepted_nodes node_identity (rows node? s.resources)
  ok (
      sort (λ (left right : Row Port). text_lt left.meta.id right.meta.id)
        (select (is_runtime_port accepted vmid nic) (rows port? s.resources)))
