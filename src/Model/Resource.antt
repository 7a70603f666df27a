-- ===== src/Model/Resource.antt =====
-- internal/model/metadata.go and resources.go. A resource is its metadata and the body of its
-- kind. Times are counted from Go's zero time, which is 0; a `*time.Time` is an `Option ℕ`.
-- `netip`, JSON and the store read texts; an enumeration keeps unknown text in `other`.
use proxmox_ovn.Prelude.{ℕ, Bool, List, Option, ℤ}
use proxmox_ovn.Text.{Text}
use proxmox_ovn.Model.Kind.{Kind}

pub data ResourceState : Type 0 where
  unset pending ready error deleting : ResourceState

pub record Metadata : Type 0 where
  pub id : Text
  pub revision : ℤ
  pub applied_revision : ℤ
  pub state : ResourceState
  pub last_error : Text
  pub created_at : ℕ
  pub updated_at : ℕ

pub record Network : Type 0 where
  pub name : Text
  pub description : Text
  pub mtu : ℤ
  pub external : Bool
  pub provider_network_id : Text

pub record IpRange : Type 0 where
  pub start : Text
  pub end : Text

pub record Subnet : Type 0 where
  pub network_id : Text
  pub name : Text
  pub cidr : Text
  pub gateway_ip : Text
  pub enable_dhcp : Bool
  pub dns_nameservers : List Text
  pub dns_domain : Text
  pub dns_search_domains : List Text
  pub allocation_pools : List IpRange

pub record FixedIp : Type 0 where
  pub subnet_id : Text
  pub address : Text

pub data PortBindingStatus : Type 0 where
  unset unbound binding bound detaching error : PortBindingStatus
  other : Text → PortBindingStatus

pub record Port : Type 0 where
  pub network_id : Text
  pub name : Text
  pub mac_address : Text
  pub fixed_ips : List FixedIp
  pub security_group_ids : List Text
  pub admin_state_up : Bool
  pub binding_status : PortBindingStatus
  pub node_id : Text
  pub vmid : ℤ
  pub nic : Text
  pub lsp_name : Text
  pub generation : ℤ
  pub requested_chassis : Text

pub data IpAllocationState : Type 0 where
  unset reserved allocated : IpAllocationState
  other : Text → IpAllocationState

pub record IpAllocation : Type 0 where
  pub subnet_id : Text
  pub port_id : Text
  pub address : Text
  pub allocation_state : IpAllocationState

pub record StaticRoute : Type 0 where
  pub destination : Text
  pub next_hop : Text

pub record Router : Type 0 where
  pub name : Text
  pub description : Text
  pub external_network_id : Text
  pub external_subnet_id : Text
  pub external_ip_address : Text
  pub enable_snat : Bool
  pub static_routes : List StaticRoute

pub record RouterInterface : Type 0 where
  pub router_id : Text
  pub subnet_id : Text
  pub port_id : Text

pub data FloatingIpStatus : Type 0 where
  unset down active error : FloatingIpStatus
  other : Text → FloatingIpStatus

pub record FloatingIp : Type 0 where
  pub provider_network_id : Text
  pub address : Text
  pub port_id : Text
  pub fixed_ip_address : Text
  pub router_id : Text
  pub floating_status : FloatingIpStatus

pub record ProviderNetwork : Type 0 where
  pub name : Text
  pub description : Text
  pub default_segment_id : Text

pub data ProviderNetworkType : Type 0 where
  flat vlan : ProviderNetworkType
  other : Text → ProviderNetworkType

pub record ProviderSegment : Type 0 where
  pub provider_network_id : Text
  pub name : Text
  pub physical_network : Text
  pub network_type : ProviderNetworkType
  pub vlan_id : ℤ

pub record SecurityGroup : Type 0 where
  pub name : Text
  pub description : Text
  pub stateful : Bool

pub data RuleDirection : Type 0 where
  ingress egress : RuleDirection
  other : Text → RuleDirection

pub data EtherType : Type 0 where
  unset ipv4 : EtherType
  other : Text → EtherType

pub data RuleAction : Type 0 where
  unset allow drop : RuleAction
  other : Text → RuleAction

pub record SecurityGroupRule : Type 0 where
  pub security_group_id : Text
  pub direction : RuleDirection
  pub ethertype : EtherType
  pub protocol : Text
  pub port_range_min : ℤ
  pub port_range_max : ℤ
  pub remote_cidr : Text
  pub remote_group_id : Text
  pub action : RuleAction
  pub description : Text

pub data NodeRole : Type 0 where
  compute gateway central : NodeRole
  other : Text → NodeRole

pub record Node : Type 0 where
  pub name : Text
  pub chassis_id : Text
  pub management_address : Text
  pub roles : List NodeRole
  pub enabled : Bool
  pub last_seen_at : Option ℕ

pub data OperationStatus : Type 0 where
  unset queued running succeeded failed : OperationStatus
  other : Text → OperationStatus

-- `target_kind` is `none` where the text names no kind.
pub record Operation : Type 0 where
  pub action : Text
  pub target_kind : Option Kind
  pub target_id : Text
  pub target_revision : ℤ
  pub operation_status : OperationStatus
  pub idempotency_key : Text
  pub error : Text
  pub lease_owner : Text
  pub started_at : Option ℕ
  pub completed_at : Option ℕ
  pub payload : Text

pub data Body : Type 0 where
  network : Network → Body
  subnet : Subnet → Body
  port : Port → Body
  ip_allocation : IpAllocation → Body
  router : Router → Body
  router_interface : RouterInterface → Body
  floating_ip : FloatingIp → Body
  provider_network : ProviderNetwork → Body
  provider_segment : ProviderSegment → Body
  security_group : SecurityGroup → Body
  security_group_rule : SecurityGroupRule → Body
  node : Node → Body
  operation : Operation → Body

pub record Resource : Type 0 where
  pub meta : Metadata
  pub body : Body

abbrev pub body_kind : Body → Kind
body_kind (network _) = Kind.network
body_kind (subnet _) = Kind.subnet
body_kind (port _) = Kind.port
body_kind (ip_allocation _) = Kind.ip_allocation
body_kind (router _) = Kind.router
body_kind (router_interface _) = Kind.router_interface
body_kind (floating_ip _) = Kind.floating_ip
body_kind (provider_network _) = Kind.provider_network
body_kind (provider_segment _) = Kind.provider_segment
body_kind (security_group _) = Kind.security_group
body_kind (security_group_rule _) = Kind.security_group_rule
body_kind (node _) = Kind.node
body_kind (operation _) = Kind.operation

-- ResourceKind
abbrev pub resource_kind : Resource → Kind
resource_kind r = body_kind r.body
