-- ===== src/Store/Integrity/Resolved.antt =====
-- A resource that passes Validate and validateReferencesLocked names only what is there.
use proxmox_ovn.Prelude.{◌≡◌, inl, inr, ◌||◌, or-true, and-true, arith, ◌==◌}
use proxmox_ovn.Text.{text_eq}
use proxmox_ovn.Platform.{Platform}
use proxmox_ovn.Result.{ok}
use proxmox_ovn.Model.Kind.{Kind, kind_eq}
use proxmox_ovn.Model.Resource.{
  FixedIp, Metadata, Body, network, subnet, port, ip_allocation, router, router_interface,
  floating_ip, provider_network, provider_segment, security_group, security_group_rule, node,
  operation,
}
use proxmox_ovn.Model.Validation.Whole.{validate}
use proxmox_ovn.Store.Table.{Table}
use proxmox_ovn.Store.References.{exists, validate_references, validate_fixed_ip_reference}
use proxmox_ovn.Store.Referrers.{references}
use proxmox_ovn.Store.Integrity.{Resolves}
use proxmox_ovn.Store.Integrity.Checked.{
  named, named_optional, named_in, exists_found, network_found, provider_network_found,
  ip_allocation_found, router_interface_found, router_found, router_subnet_found, floating_ip_found,
  rule_found, port_checks, fixed_ip_found,
}

-- Validation and the check of references together leave no name unresolved.
pub validated-Resolves :
    (p : Platform) (t : Table) (m : Metadata) (b : Body)
    → validate p b ≡ ok tt
    → validate_references t (record { meta = m; body = b }) ≡ ok tt
    → Resolves t b
unfolding validate validate_references references
validated-Resolves p t m (network v) val h k i nonempty ref =
    named_optional t k Kind.provider_network i v.provider_network_id (network_found t v h) nonempty
      ref
validated-Resolves p t m (subnet v) val h k i nonempty ref =
    named t k Kind.network i v.network_id (exists_found t Kind.network v.network_id h) ref
validated-Resolves p t m (port v) val h k i nonempty ref =
    let (n, fixed, groups) = port_checks t v h in
    elim (or-true _ _ ref) [
      | inl more ↦ elim (or-true _ _ more) [
        | inl e ↦ named t k Kind.network i v.network_id n e
        | inr e ↦
            named_in t k Kind.subnet i (validate_fixed_ip_reference t v)
              (λ (f : FixedIp). f.subnet_id) v.fixed_ips fixed (fixed_ip_found t v) e
      ]
      | inr e ↦
          named_in t k Kind.security_group i (exists t Kind.security_group) (λ g. g)
            v.security_group_ids groups (exists_found t Kind.security_group) e
    ]
validated-Resolves p t m (ip_allocation v) val h k i nonempty ref =
    let (s, pt) = ip_allocation_found t v h in
    elim (or-true _ _ ref) [
      | inl e ↦ named t k Kind.subnet i v.subnet_id s e
      | inr e ↦ named_optional t k Kind.port i v.port_id pt nonempty e
    ]
validated-Resolves p t m (router v) val h k i nonempty ref = elim (or-true _ _ ref) [
  | inl e ↦
      named_optional t k Kind.network i v.external_network_id (λ e'. (router_found t m.id v h e').0)
        nonempty e
  | inr e ↦
      named_optional t k Kind.subnet i v.external_subnet_id (router_subnet_found t m.id v val h)
        nonempty e
]
validated-Resolves p t m (router_interface v) val h k i nonempty ref =
    let (r, s, pt) = router_interface_found t v h in
    elim (or-true _ _ ref) [
      | inl more ↦ elim (or-true _ _ more) [
        | inl e ↦ named t k Kind.router i v.router_id r e
        | inr e ↦ named t k Kind.subnet i v.subnet_id s e
      ]
      | inr e ↦ named_optional t k Kind.port i v.port_id pt nonempty e
    ]
validated-Resolves p t m (floating_ip v) val h k i nonempty ref =
    let (n, pt, r) = floating_ip_found t v h in
    elim (or-true _ _ ref) [
      | inl more ↦ elim (or-true _ _ more) [
        | inl e ↦ named t k Kind.provider_network i v.provider_network_id n e
        | inr e ↦ named_optional t k Kind.port i v.port_id pt nonempty e
      ]
      | inr e ↦ named_optional t k Kind.router i v.router_id r nonempty e
    ]
validated-Resolves p t m (provider_network v) val h k i nonempty ref =
    named_optional t k Kind.provider_segment i v.default_segment_id
      (provider_network_found t m.id v h) nonempty ref
validated-Resolves p t m (provider_segment v) val h k i nonempty ref =
    named t k Kind.provider_network i v.provider_network_id
      (exists_found t Kind.provider_network v.provider_network_id h) ref
validated-Resolves p t m (security_group_rule v) val h k i nonempty ref =
    let (g, remote) = rule_found t v h in
    let (ek, either) =
      and-true (k == Kind.security_group) (v.security_group_id == i || v.remote_group_id == i)
        ref in
    elim (or-true (v.security_group_id == i) (v.remote_group_id == i) either) [
      | inl e ↦ named t k Kind.security_group i v.security_group_id g (ground arith)
      | inr e ↦
          named_optional t k Kind.security_group i v.remote_group_id remote nonempty (ground arith)
    ]
validated-Resolves p t m (security_group v) val h k i nonempty ref = cc
validated-Resolves p t m (node v) val h k i nonempty ref = cc
validated-Resolves p t m (operation v) val h k i nonempty ref = cc
