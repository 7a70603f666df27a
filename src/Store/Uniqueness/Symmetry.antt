-- ===== src/Store/Uniqueness/Symmetry.antt =====
-- conflictField does not depend on which of the two resources is the candidate.
use proxmox_ovn.Prelude.{
  ◌≡◌, refl, sym, ap, ◌∙◌, true, not, ◌&&◌, [], ◌∷◌, Option, none, some, inl, inr, Bool-cases,
  any-In, In-any, Bool-antisym, arith, pos, ltb_ℤ, int_eq, Eq, ◌==◌, ==_iff, ==→≡, and-true,
}
use proxmox_ovn.Text.{Text, text_eq, is_empty, to_lower, equal_fold}
use proxmox_ovn.Model.Kind.{Kind, kind_eq}
use proxmox_ovn.Model.Resource.{
  FixedIp, Port, ProviderNetworkType, Body, network, subnet, port, ip_allocation, router,
  router_interface, floating_ip, provider_network, provider_segment, security_group,
  security_group_rule, node, operation,
}
use proxmox_ovn.Model.Ip.Overlap.{overlap_comm}
use proxmox_ovn.Store.Unique.{
  conflict_field, conflict_ports, shares_fixed_ip, network_type_beq, target_beq,
}

pub ==_comm : {A : Type 0} ⦃e : Eq A⦄ (a b : A) → (a == b) ≡ (b == a)
==_comm a b = elim (Bool-cases (a == b)) [
  | inl h ↦ h ∙ sym ((==_iff b a).1 (sym (==→≡ a b h)))
  | inr h ↦ elim (Bool-cases (b == a)) [
    | inl k ↦ absurd (ground (arith, (==_iff a b).1 (sym (==→≡ b a k))))
    | inr k ↦ h ∙ sym k
  ]
]

network_type_comm : (a b : ProviderNetworkType) → network_type_beq a b ≡ network_type_beq b a
unfolding network_type_beq
network_type_comm (ProviderNetworkType.other s) (ProviderNetworkType.other t) = ==_comm s t
network_type_comm ProviderNetworkType.flat b = ground arith
network_type_comm ProviderNetworkType.vlan b = ground arith
network_type_comm (ProviderNetworkType.other s) ProviderNetworkType.flat = refl
network_type_comm (ProviderNetworkType.other s) ProviderNetworkType.vlan = refl

target_comm : (a b : Option Kind) → target_beq a b ≡ target_beq b a
unfolding target_beq
target_comm (some a) (some b) = ==_comm a b
target_comm none none = refl
target_comm none (some b) = refl
target_comm (some a) none = refl

equal_fold_comm : (a b : Text) → equal_fold a b ≡ equal_fold b a
unfolding equal_fold
equal_fold_comm a b = ==_comm (to_lower a) (to_lower b)

to_lower_empty : (a : Text) → is_empty (to_lower a) ≡ is_empty a
unfolding to_lower
to_lower_empty [] = refl
to_lower_empty (c ∷ a) = refl

-- Texts that are equal up to case are empty together.
equal_fold_empty : (a b : Text) → equal_fold a b ≡ true → is_empty a ≡ is_empty b
unfolding equal_fold
equal_fold_empty a b h =
    sym (to_lower_empty a) ∙ ap is_empty (==→≡ (to_lower a) (to_lower b) h) ∙ to_lower_empty b

mac_test :
    (a b : Text)
    → (not (is_empty a) && equal_fold a b) ≡ true
    → (not (is_empty b) && equal_fold b a) ≡ true
mac_test a b h =
    let (e, f) = and-true (not (is_empty a)) (equal_fold a b) h in
    ground (arith, equal_fold_empty a b f, equal_fold_comm a b)

name_test : (a b : Text) → (not (is_empty a) && a == b) ≡ true → (not (is_empty b) && b == a) ≡ true
name_test a b h =
    let (e, f) = and-true (not (is_empty a)) (a == b) h in
    ground (arith, ap is_empty (==→≡ a b f), ==_comm a b)

nic_test :
    (l r : Port)
    → (not (is_empty l.node_id)
        && ltb_ℤ (pos 0) l.vmid
        && not (is_empty l.nic)
        && l.node_id == r.node_id
        && l.vmid == r.vmid
        && l.nic == r.nic)
      ≡ true
    → (not (is_empty r.node_id)
        && ltb_ℤ (pos 0) r.vmid
        && not (is_empty r.nic)
        && r.node_id == l.node_id
        && r.vmid == l.vmid
        && r.nic == l.nic)
      ≡ true
nic_test l r h =
    let node_same = ==→≡ l.node_id r.node_id (ground arith) in
    let vm_same = ==→≡ l.vmid r.vmid (ground arith) in
    let nic_same = ==→≡ l.nic r.nic (ground arith) in
    ground (
      arith,
      ap is_empty node_same,
      ap (ltb_ℤ (pos 0)) vm_same,
      ap is_empty nic_same,
      ==_comm l.node_id r.node_id,
      ==_comm l.vmid r.vmid,
      ==_comm l.nic r.nic,
    )

shared_fixed_ip : (l r : Port) → shares_fixed_ip l r ≡ true → shares_fixed_ip r l ≡ true
unfolding shares_fixed_ip
shared_fixed_ip l r h =
    let (x, in_left, hit) = any-In _ l.fixed_ips h in
    let (written, inner) = and-true (not (is_empty x.address)) _ hit in
    let (y, in_right, same) = any-In _ r.fixed_ips inner in
    let (subnet_same, address_same) =
      and-true (x.subnet_id == y.subnet_id) (x.address == y.address) same in
    In-any _ r.fixed_ips y in_right (
      ground (
        arith,
        ap is_empty (==→≡ x.address y.address address_same),
        In-any (λ (f : FixedIp). y.subnet_id == f.subnet_id && y.address == f.address) l.fixed_ips x
            in_left (ground (arith, ==_comm x.subnet_id y.subnet_id, ==_comm x.address y.address)),
      ))

ports_comm : (l r : Port) → conflict_ports l r ≡ conflict_ports r l
unfolding conflict_ports
ports_comm l r =
    rw
      (
        Bool-antisym _ _ (mac_test l.mac_address r.mac_address)
            (mac_test r.mac_address l.mac_address),
        Bool-antisym _ _ (name_test l.lsp_name r.lsp_name) (name_test r.lsp_name l.lsp_name),
        Bool-antisym _ _ (nic_test l r) (nic_test r l),
        Bool-antisym _ _ (shared_fixed_ip l r) (shared_fixed_ip r l),
      )
      refl

pub conflict_field_comm : (a b : Body) → conflict_field a b ≡ conflict_field b a
unfolding conflict_field
conflict_field_comm (network l) (network r) = rw (==_comm l.name r.name) refl
conflict_field_comm (subnet l) (subnet r) =
    rw (==_comm l.network_id r.network_id, ==_comm l.name r.name, overlap_comm l.cidr r.cidr) refl
conflict_field_comm (port l) (port r) = ports_comm l r
conflict_field_comm (ip_allocation l) (ip_allocation r) =
    rw (==_comm l.subnet_id r.subnet_id, ==_comm l.address r.address) refl
conflict_field_comm (router l) (router r) = rw (==_comm l.name r.name) refl
conflict_field_comm (router_interface l) (router_interface r) =
    rw (==_comm l.router_id r.router_id, ==_comm l.subnet_id r.subnet_id) refl
conflict_field_comm (floating_ip l) (floating_ip r) =
    rw (==_comm l.provider_network_id r.provider_network_id, ==_comm l.address r.address) refl
conflict_field_comm (provider_network l) (provider_network r) = rw (==_comm l.name r.name) refl
conflict_field_comm (provider_segment l) (provider_segment r) =
    rw
      (
        ==_comm l.provider_network_id r.provider_network_id,
        ==_comm l.name r.name,
        ==_comm l.physical_network r.physical_network,
        network_type_comm l.network_type r.network_type,
        ==_comm l.vlan_id r.vlan_id,
      )
      refl
conflict_field_comm (security_group l) (security_group r) = rw (==_comm l.name r.name) refl
conflict_field_comm (node l) (node r) =
    rw (==_comm l.name r.name, ==_comm l.chassis_id r.chassis_id) refl
conflict_field_comm (operation l) (operation r) =
    rw
      (
        ==_comm l.idempotency_key r.idempotency_key,
        target_comm l.target_kind r.target_kind,
        ==_comm l.target_id r.target_id,
        ==_comm l.target_revision r.target_revision,
      )
      refl
conflict_field_comm (security_group_rule l) b = ground arith
conflict_field_comm _ _ = refl
