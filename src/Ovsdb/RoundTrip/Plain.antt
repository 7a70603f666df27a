-- ===== src/Ovsdb/RoundTrip/Plain.antt =====
-- Which resources a row can carry, and what comes back: the lists that are sets come back in order.
use proxmox_ovn.Prelude.{
  ℕ, Bool, true, not, ◌&&◌, map, Option, none, some, pos, ltb, ltb_ℤ, sort, all,
}
use proxmox_ovn.Text.{text_lt}
use proxmox_ovn.Model.Resource.{
  Metadata, Resource, Body, NodeRole, subnet, port, ip_allocation, router, floating_ip,
  provider_segment, security_group_rule, node, operation,
}
use proxmox_ovn.Ovsdb.Row.{has_repeat}
use proxmox_ovn.Ovsdb.Fields.{range_before, subnet_before}
use proxmox_ovn.Ovsdb.Snapshot.{year_10000, is_ascii, is_ascii_range, is_ascii_route}
use proxmox_ovn.Ovsdb.Words.{
  is_stored_state, binding_status_known, allocation_state_known, floating_status_known,
  network_type_known, direction_known, ethertype_known, action_known, role_text, role_known,
  operation_status_known,
}

abbrev pub is_written_time : Option ℕ → Bool
is_written_time none = true
is_written_time (some t) = ltb t year_10000

-- A known state, an applied revision between 0 and the revision, and times before the year 10000.
abbrev pub is_plain_metadata : Metadata → Bool
is_plain_metadata meta =
    is_stored_state meta.state
    && not (ltb_ℤ meta.applied_revision (pos 0))
    && not (ltb_ℤ meta.revision meta.applied_revision)
    && ltb meta.created_at year_10000
    && ltb meta.updated_at year_10000

-- Known words in the enumerations, ASCII in the lists that JSON carries, and no role twice.
abbrev pub is_plain_body : Body → Bool
is_plain_body (subnet s) =
    all is_ascii s.dns_search_domains && all is_ascii_range s.allocation_pools
is_plain_body (port p) = binding_status_known p.binding_status
is_plain_body (ip_allocation i) = allocation_state_known i.allocation_state
is_plain_body (router r) = all is_ascii_route r.static_routes
is_plain_body (floating_ip f) = floating_status_known f.floating_status
is_plain_body (provider_segment p) = network_type_known p.network_type
is_plain_body (security_group_rule r) =
    direction_known r.direction && ethertype_known r.ethertype && action_known r.action
is_plain_body (node n) =
    all role_known n.roles
    && not (has_repeat (map role_text n.roles))
    && is_written_time n.last_seen_at
is_plain_body (operation o) =
    operation_status_known o.operation_status
    && is_written_time o.started_at
    && is_written_time o.completed_at
is_plain_body _ = true

abbrev pub is_plain : Resource → Bool
is_plain r = is_plain_metadata r.meta && is_plain_body r.body

unfoldable pub role_before : NodeRole → NodeRole → Bool
role_before a b = text_lt (role_text a) (role_text b)

-- Name servers, pools, fixed addresses, security groups and roles in their orders.
abbrev pub in_order : Body → Body
in_order (subnet s) = subnet (record s {
  dns_nameservers = sort text_lt s.dns_nameservers;
  allocation_pools = sort range_before s.allocation_pools;
})
in_order (port p) = port (record p {
  fixed_ips = sort subnet_before p.fixed_ips;
  security_group_ids = sort text_lt p.security_group_ids;
})
in_order (node n) = node (record n { roles = sort role_before n.roles })
in_order body = body
