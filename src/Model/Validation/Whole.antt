-- ===== src/Model/Validation/Whole.antt =====
-- Validate, by kind.
use proxmox_ovn.Result.{Check}
use proxmox_ovn.Platform.{Platform}
use proxmox_ovn.Model.Resource.{
  Body, network, subnet, port, ip_allocation, router, router_interface, floating_ip,
  provider_network, provider_segment, security_group, security_group_rule, node, operation,
}
use proxmox_ovn.Model.Validation.Address.{
  validate_network, validate_subnet, validate_router, validate_router_interface,
  validate_ip_allocation, validate_floating_ip, validate_provider_network,
  validate_provider_segment,
}
use proxmox_ovn.Model.Validation.Policy.{
  validate_port, validate_security_group, validate_security_group_rule, validate_node,
  validate_operation,
}

unfoldable pub validate : Platform → Body → Check
validate platform (network n) = validate_network n
validate platform (subnet s) = validate_subnet s
validate platform (port p) = validate_port p
validate platform (ip_allocation a) = validate_ip_allocation a
validate platform (router r) = validate_router r
validate platform (router_interface r) = validate_router_interface r
validate platform (floating_ip f) = validate_floating_ip f
validate platform (provider_network p) = validate_provider_network p
validate platform (provider_segment p) = validate_provider_segment p
validate platform (security_group s) = validate_security_group s
validate platform (security_group_rule r) = validate_security_group_rule r
validate platform (node n) = validate_node n
validate platform (operation o) = validate_operation platform o
