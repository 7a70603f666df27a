-- ===== src/Ovsdb/Unique.antt =====
-- uniqueKeys and validateSnapshotUnique of internal/ovsdbstore/validation.go. The loops over `seen`
-- ask whether a key comes twice, in whatever order a map is visited.
use proxmox_ovn.Prelude.{
  Bool, false, not, ◌&&◌, ◌||◌, ◌++◌, List, [], ◌∷◌, map, Option, none, some, pos, ltb_ℤ, any, ◌==◌,
  if◌then◌else◌, select,
}
use proxmox_ovn.Text.{Text, text, text_eq, is_empty, to_lower, decimal}
use proxmox_ovn.Model.Kind.{Kind, kind_eq, kinds}
use proxmox_ovn.Model.Ip.{ipv4_prefixes_overlap}
use proxmox_ovn.Model.Resource.{
  Resource, resource_kind, Body, FixedIp, Port, network, subnet, port, ip_allocation, router,
  router_interface, floating_ip, provider_network, provider_segment, security_group,
  security_group_rule, node, operation,
}
use proxmox_ovn.Store.Table.{Table}
use proxmox_ovn.Store.Unique.{external_address_claim}
use proxmox_ovn.Ovsdb.Row.{has_repeat}
use proxmox_ovn.Ovsdb.Words.{network_type_text, target_kind_text}

-- Fields of a key, with a zero byte between them.
abbrev pub joined : Text → Text → Text
joined a b = a ++ (0 ∷ b)

abbrev pub concatenated : List (List Text) → List Text
concatenated [] = []
concatenated (ts ∷ tss) = ts ++ concatenated tss

abbrev pub address_key : FixedIp → List Text
address_key fixed =
    if is_empty fixed.address
    then []
    else (text "fixed_ips.subnet_id,address=" ++ joined fixed.subnet_id fixed.address) ∷ []

-- Where a virtual machine's interface is plugged in.
abbrev pub place_key : Port → List Text
place_key p =
    if not (is_empty p.node_id) && ltb_ℤ (pos 0) p.vmid && not (is_empty p.nic)
    then (text "node_id,vmid,nic=" ++ joined p.node_id (joined (decimal p.vmid) p.nic)) ∷ []
    else []

-- uniqueKeys
unfoldable pub unique_keys : Body → List Text
unique_keys (network n) = (text "name=" ++ n.name) ∷ []
unique_keys (subnet s) =
    (text "network_id,cidr=" ++ joined s.network_id s.cidr)
    ∷ (text "network_id,name=" ++ joined s.network_id s.name)
    ∷ []
unique_keys (port p) =
    (text "mac_address=" ++ to_lower p.mac_address) ∷ (text "lsp_name=" ++ p.lsp_name) ∷ place_key p
    ++ concatenated (map address_key p.fixed_ips)
unique_keys (ip_allocation i) = (text "subnet_id,address=" ++ joined i.subnet_id i.address) ∷ []
unique_keys (router r) = (text "name=" ++ r.name) ∷ []
unique_keys (router_interface r) =
    (text "router_id,subnet_id=" ++ joined r.router_id r.subnet_id) ∷ []
unique_keys (floating_ip f) =
    (text "provider_network_id,address=" ++ joined f.provider_network_id f.address) ∷ []
unique_keys (provider_network p) = (text "name=" ++ p.name) ∷ []
unique_keys (provider_segment p) =
    (text "provider_network_id,name=" ++ joined p.provider_network_id p.name)
    ∷ (text "physical_network,network_type,vlan_id="
        ++ joined p.physical_network
            (joined (network_type_text p.network_type) (decimal p.vlan_id)))
    ∷ []
unique_keys (security_group s) = (text "name=" ++ s.name) ∷ []
unique_keys (operation o) =
    (text "idempotency_key=" ++ o.idempotency_key)
    ∷ (text "target_kind,target_id,target_revision="
        ++ joined (target_kind_text o.target_kind) (joined o.target_id (decimal o.target_revision)))
    ∷ []
unique_keys (node n) = (text "name=" ++ n.name) ∷ (text "chassis_id=" ++ n.chassis_id) ∷ []
unique_keys (security_group_rule r) = []

abbrev pub keys_of_kind : Table → Kind → List Text
keys_of_kind t kind =
    concatenated (map (λ r. unique_keys r.body) (select (λ r. resource_kind r == kind) t))

abbrev claim_list : Option Text → List Text
claim_list none = []
claim_list (some claim) = claim ∷ []

-- The provider addresses that subnets, routers and floating IPs claim.
abbrev claims : Table → List Text
claims t = concatenated (map (λ r. claim_list (external_address_claim t r.body)) t)

abbrev pub overlaps : Body → Body → Bool
overlaps (subnet s) (subnet other) =
    s.network_id == other.network_id && ipv4_prefixes_overlap s.cidr other.cidr
overlaps _ _ = false

-- Two subnets of one network overlap.
unfoldable pub has_overlap : Table → Bool
has_overlap [] = false
has_overlap (r ∷ t) = any (λ (other : Resource). overlaps r.body other.body) t || has_overlap t

-- validateSnapshotUnique
unfoldable pub is_snapshot_unique : Table → Bool
unfolding has_overlap unique_keys
is_snapshot_unique t =
    not (any (λ kind. has_repeat (keys_of_kind t kind)) kinds)
    && not (has_repeat (claims t))
    && not (has_overlap t)
