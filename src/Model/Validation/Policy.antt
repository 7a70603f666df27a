-- ===== src/Model/Validation/Policy.antt =====
-- validatePort, validateSecurityGroup, validateSecurityGroupRule, validateNode, validateOperation
-- and ValidateOperationPayload.
use proxmox_ovn.Prelude.{
  ◌*◌, Bool, true, false, not, ◌&&◌, ◌||◌, List, [], ◌∷◌, ℤ, pos, ltb_ℤ, ltb, ◌==◌, int_eq, length,
  any, if◌then◌else◌, Option, none, some,
}
use proxmox_ovn.Text.{Text, text, text_eq, is_empty, to_lower}
use proxmox_ovn.Netip.{parse_addr, parse_prefix}
use proxmox_ovn.Result.{Check, ok, invalid, ◌>>=◌, ◌>>◌, guard, refuse, or_fail, each}
use proxmox_ovn.Platform.{Platform}
use proxmox_ovn.Model.Kind.{Kind, kind_eq}
use proxmox_ovn.Model.Patterns.{is_nic, parse_mac, parse_requested_chassis}
use proxmox_ovn.Model.Resource.{
  FixedIp, Port, PortBindingStatus, SecurityGroup, SecurityGroupRule, RuleDirection, EtherType,
  RuleAction, Node, NodeRole, Operation, OperationStatus,
}
use proxmox_ovn.Model.Validation.{validate_name, required, outside, unless_empty, parses}

validate_fixed_ip : FixedIp → Check
validate_fixed_ip fixed = do
  refuse (is_empty fixed.subnet_id) (invalid (text "fixed_ips.subnet_id"))
  unless_empty fixed.address
      (parses (parse_addr fixed.address) (invalid (text "fixed_ips.address")))

known_binding_status : PortBindingStatus → Bool
known_binding_status (PortBindingStatus.other _) = false
known_binding_status _ = true

unfoldable pub validate_port : Port → Check
unfolding validate_fixed_ip known_binding_status
validate_port p = do
  required (text "network_id") p.network_id
  validate_name (text "name") p.name
  required (text "mac_address") p.mac_address
  parses (parse_mac p.mac_address) (invalid (text "mac_address"))
  each validate_fixed_ip p.fixed_ips
  refuse (not (is_empty p.nic) && not (is_nic p.nic)) (invalid (text "nic"))
  refuse (ltb_ℤ p.vmid (pos 0)) (invalid (text "vmid"))
  refuse (ltb_ℤ p.generation (pos 0)) (invalid (text "generation"))
  parses (parse_requested_chassis p.requested_chassis) (invalid (text "requested_chassis"))
  guard (known_binding_status p.binding_status) (invalid (text "binding_status"))

unfoldable pub validate_security_group : SecurityGroup → Check
validate_security_group s = validate_name (text "name") s.name

known_direction : RuleDirection → Bool
known_direction (RuleDirection.other _) = false
known_direction _ = true

is_ipv4 : EtherType → Bool
is_ipv4 EtherType.ipv4 = true
is_ipv4 _ = false

allow_or_drop : RuleAction → Bool
allow_or_drop RuleAction.allow = true
allow_or_drop RuleAction.drop = true
allow_or_drop _ = false

-- An ordered range between 0 and 65535, where the maximum 0 means none.
bad_port_range : ℤ → ℤ → Bool
bad_port_range low high =
    outside (pos 0) (pos 65535) low
    || outside (pos 0) (pos 65535) high
    || (not (high == pos 0) && ltb_ℤ high low)

unfoldable pub validate_security_group_rule : SecurityGroupRule → Check
unfolding known_direction is_ipv4 allow_or_drop bad_port_range
validate_security_group_rule r = do
  required (text "security_group_id") r.security_group_id
  guard (known_direction r.direction) (invalid (text "direction"))
  guard (is_ipv4 r.ethertype) (invalid (text "ethertype"))
  let protocol = to_lower r.protocol
  guard
      (is_empty protocol
        || protocol == text "tcp"
        || protocol == text "udp"
        || protocol == text "icmp")
      (invalid (text "protocol"))
  if protocol == text "tcp" || protocol == text "udp"
      then refuse (bad_port_range r.port_range_min r.port_range_max) (invalid (text "port_range"))
      else guard (r.port_range_min == pos 0 && r.port_range_max == pos 0)
          (invalid (text "port_range"))
  refuse (not (is_empty r.remote_cidr) && not (is_empty r.remote_group_id))
      (invalid (text "remote"))
  unless_empty r.remote_cidr (parses (parse_prefix r.remote_cidr) (invalid (text "remote_cidr")))
  guard (allow_or_drop r.action) (invalid (text "action"))

-- The position of a role; unknown roles never get past the first test.
role_beq : NodeRole → NodeRole → Bool
role_beq NodeRole.compute NodeRole.compute = true
role_beq NodeRole.gateway NodeRole.gateway = true
role_beq NodeRole.central NodeRole.central = true
role_beq (NodeRole.other s) (NodeRole.other t) = s == t
role_beq _ _ = false

known_role : NodeRole → Bool
known_role (NodeRole.other _) = false
known_role _ = true

validate_roles : List NodeRole → List NodeRole → Check
validate_roles seen [] = ok tt
validate_roles seen (role ∷ roles) = do
  guard (known_role role) (invalid (text "roles"))
  refuse (any (λ other. role_beq other role) seen) (invalid (text "roles"))
  validate_roles (role ∷ seen) roles

unfoldable pub validate_node : Node → Check
unfolding validate_roles known_role role_beq
validate_node n = do
  validate_name (text "name") n.name
  required (text "chassis_id") n.chassis_id
  validate_roles [] n.roles

unfoldable pub known_operation_status : OperationStatus → Bool
known_operation_status OperationStatus.unset = false
known_operation_status (OperationStatus.other _) = false
known_operation_status _ = true

is_target : Option Kind → Bool
is_target none = false
is_target (some kind) = not (kind == Kind.operation)

abbrev pub is_running : OperationStatus → Bool
is_running OperationStatus.running = true
is_running _ = false

-- leaseProtectedAction
unfoldable pub lease_protected_action : Text → Bool
lease_protected_action action = action == text "reconcile" || action == text "delete"

-- ValidateOperationPayload
unfoldable pub validate_operation_payload : Platform → Text → Check
validate_operation_payload platform payload = if is_empty payload then ok tt else (do
  refuse (ltb (32 * 1024) (length payload)) (invalid (text "payload"))
  canonical ← or_fail (platform.canonical_json payload) (invalid (text "payload"))
  guard (payload == canonical) (invalid (text "payload")))

unfoldable pub validate_operation : Platform → Operation → Check
unfolding known_operation_status is_target lease_protected_action
validate_operation platform o = do
  required (text "action") o.action
  required (text "idempotency_key") o.idempotency_key
  guard (is_target o.target_kind) (invalid (text "target_kind"))
  required (text "target_id") o.target_id
  refuse (ltb_ℤ o.target_revision (pos 1)) (invalid (text "target_revision"))
  guard (known_operation_status o.operation_status) (invalid (text "status"))
  if is_running o.operation_status && lease_protected_action o.action
      then validate_name (text "lease_owner") o.lease_owner
      else ok tt
  validate_operation_payload platform o.payload
