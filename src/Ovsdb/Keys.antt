-- ===== src/Ovsdb/Keys.antt =====
-- uniqueKeys of internal/ovsdbstore/validation.go against conflictField.
pub mod Parts
pub mod Ports
use proxmox_ovn.Prelude.{
  ◌≡◌, refl, sym, ap, subst, ◌⊎◌, inl, inr, Bool, true, false, not, ◌&&◌, ◌++◌, List, [], ◌∷◌, map,
  In, Option, none, some, and-true, any-In, ==→≡, ◌==◌, int_eq, arith, pos, ltb_ℤ,
}
use proxmox_ovn.Text.{Text, text, text_eq, is_empty, equal_fold, to_lower}
use proxmox_ovn.Model.Kind.{Kind, kind_eq}
use proxmox_ovn.Model.Ip.{ipv4_prefixes_overlap}
use proxmox_ovn.Model.Resource.{
  Body, Port, ProviderNetworkType, network, subnet, port, ip_allocation, router, router_interface,
  floating_ip, provider_network, provider_segment, security_group, node, operation,
}
use proxmox_ovn.Store.Unique.{
  field_if, conflict_field, conflict_ports, shares_fixed_ip, network_type_beq, target_beq,
}
use proxmox_ovn.Ovsdb.Words.{network_type_text, target_kind_text}
use proxmox_ovn.Ovsdb.Unique.{joined, concatenated, address_key, place_key, unique_keys, overlaps}
use proxmox_ovn.Ovsdb.Keys.Parts.{
  HaveCommon, IsFound, field-cases, same, same_pair, network_type_same, target_same, In-left,
  In-right, In-concatenated,
}
use proxmox_ovn.Ovsdb.Keys.Ports.{ports-IsFound}

-- Whatever the in-memory store calls a conflict of two bodies, the check of the snapshot finds.
pub conflict_field-IsFound : (left right : Body) → IsFound (conflict_field left right) left right
unfolding conflict_field unique_keys
conflict_field-IsFound (network l) (network r) =
    field-cases (l.name == r.name) _ []
      (λ h. inr (_, inl refl, inl (same (text "name=") l.name r.name h))) (inl refl)
conflict_field-IsFound (subnet l) (subnet r) =
    field-cases (l.network_id == r.network_id && ipv4_prefixes_overlap l.cidr r.cidr) _ _
      (λ h. inl h)
      (field-cases (l.network_id == r.network_id && l.name == r.name) _ []
        (λ h. inr (
          _,
          inr (inl refl),
          inr (inl (same_pair (text "network_id,name=") l.network_id r.network_id l.name r.name h)),
        ))
        (inl refl))
conflict_field-IsFound (port l) (port r) = ports-IsFound l r
conflict_field-IsFound (ip_allocation l) (ip_allocation r) =
    field-cases (l.subnet_id == r.subnet_id && l.address == r.address) _ []
      (λ h. inr (
        _,
        inl refl,
        inl (same_pair (text "subnet_id,address=") l.subnet_id r.subnet_id l.address r.address h),
      ))
      (inl refl)
conflict_field-IsFound (router l) (router r) =
    field-cases (l.name == r.name) _ []
      (λ h. inr (_, inl refl, inl (same (text "name=") l.name r.name h))) (inl refl)
conflict_field-IsFound (router_interface l) (router_interface r) =
    field-cases (l.router_id == r.router_id && l.subnet_id == r.subnet_id) _ []
      (λ h. inr (
        _,
        inl refl,
        inl (
            same_pair (text "router_id,subnet_id=") l.router_id r.router_id l.subnet_id r.subnet_id
              h),
      ))
      (inl refl)
conflict_field-IsFound (floating_ip l) (floating_ip r) =
    field-cases (l.provider_network_id == r.provider_network_id && l.address == r.address) _ []
      (λ h. inr (
        _,
        inl refl,
        inl (
            same_pair (text "provider_network_id,address=") l.provider_network_id
              r.provider_network_id l.address r.address h),
      ))
      (inl refl)
conflict_field-IsFound (provider_network l) (provider_network r) =
    field-cases (l.name == r.name) _ []
      (λ h. inr (_, inl refl, inl (same (text "name=") l.name r.name h))) (inl refl)
conflict_field-IsFound (provider_segment l) (provider_segment r) =
    field-cases (l.provider_network_id == r.provider_network_id && l.name == r.name) _ _
      (λ h. inr (
        _,
        inl refl,
        inl (
            same_pair (text "provider_network_id,name=") l.provider_network_id r.provider_network_id
              l.name r.name h),
      ))
      (field-cases
        (l.physical_network == r.physical_network
          && network_type_beq l.network_type r.network_type
          && l.vlan_id == r.vlan_id)
        _ []
        (λ h.
          let (h', e'') =
            and-true
              (l.physical_network == r.physical_network
                && network_type_beq l.network_type r.network_type)
              (l.vlan_id == r.vlan_id) h in
          let (e, e') =
            and-true (l.physical_network == r.physical_network)
              (network_type_beq l.network_type r.network_type) h' in
          inr (
            _,
            inr (inl refl),
            inr (
                inl (
                  rw
                    (
                      ==→≡ l.physical_network r.physical_network e,
                      network_type_same l.network_type r.network_type e',
                      ==→≡ l.vlan_id r.vlan_id e'',
                    )
                    refl)),
          ))
        (inl refl))
conflict_field-IsFound (security_group l) (security_group r) =
    field-cases (l.name == r.name) _ []
      (λ h. inr (_, inl refl, inl (same (text "name=") l.name r.name h))) (inl refl)
conflict_field-IsFound (operation l) (operation r) =
    field-cases (l.idempotency_key == r.idempotency_key) _ _
      (λ h.
        inr
          (_, inl refl, inl (same (text "idempotency_key=") l.idempotency_key r.idempotency_key h)))
      (field-cases
        (target_beq l.target_kind r.target_kind
          && l.target_id == r.target_id
          && l.target_revision == r.target_revision)
        _ []
        (λ h.
          let (h', e'') =
            and-true (target_beq l.target_kind r.target_kind && l.target_id == r.target_id)
              (l.target_revision == r.target_revision) h in
          let (e, e') =
            and-true (target_beq l.target_kind r.target_kind) (l.target_id == r.target_id) h' in
          inr (
            _,
            inr (inl refl),
            inr (
                inl (
                  rw
                    (
                      target_same l.target_kind r.target_kind e,
                      ==→≡ l.target_id r.target_id e',
                      ==→≡ l.target_revision r.target_revision e'',
                    )
                    refl)),
          ))
        (inl refl))
conflict_field-IsFound (node l) (node r) =
    field-cases (l.name == r.name) _ _
      (λ h. inr (_, inl refl, inl (same (text "name=") l.name r.name h)))
      (field-cases (l.chassis_id == r.chassis_id) _ []
        (λ h.
          inr
            (_, inr (inl refl), inr (inl (same (text "chassis_id=") l.chassis_id r.chassis_id h))))
        (inl refl))
conflict_field-IsFound _ _ = inl refl
