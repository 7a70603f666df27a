-- ===== src/Store/Integrity/Checked.antt =====
-- What validateReferencesLocked accepts resolves: each check requires what it names.
use proxmox_ovn.Prelude.{
  ◌≡◌, sym, subst, inl, inr, true, false, ◌&&◌, List, arith, any, Bool-cases, ◌==◌, and-true, ==→≡,
}
use proxmox_ovn.Text.{Text, text_eq, is_empty}
use proxmox_ovn.Result.{Check, ok, each, each-any}
use proxmox_ovn.Model.Kind.{Kind, kind_eq}
use proxmox_ovn.Model.Validation.{unless_empty}
use proxmox_ovn.Model.Validation.Address.{validate_router}
use proxmox_ovn.Model.Resource.{
  FixedIp, Network, Port, Router, RouterInterface, FloatingIp, ProviderNetwork, IpAllocation,
  SecurityGroupRule,
}
use proxmox_ovn.Store.Table.{Table, lookup, found}
use proxmox_ovn.Store.References.{
  exists, validate_provider_network_references, validate_port_references,
  validate_fixed_ip_reference, validate_ip_allocation_references, validate_router_references,
  validate_router_interface_references, validate_floating_ip_references,
  validate_security_group_rule_references,
}

-- One disjunct of `references`: the kind and the id are the ones that are known to be there.
pub named :
    (t : Table) (kind k : Kind) (id i : Text)
    → found (lookup t k i) ≡ true
    → (kind == k && i == id) ≡ true
    → found (lookup t kind id) ≡ true
named t kind k id i known h =
    let (ek, ei) = and-true (kind == k) (i == id) h in
    subst (λ x. found (lookup t x id) ≡ true) (sym (==→≡ kind k ek))
      (subst (λ x. found (lookup t k x) ≡ true) (==→≡ i id ei) known)

written : (i : Text) (c : Check) → unless_empty i c ≡ ok tt → is_empty i ≡ false → c ≡ ok tt
written i c h e = rw e at h

-- A name that may be left empty: the one that is asked for is not.
pub named_optional :
    (t : Table) (kind k : Kind) (id i : Text)
    → (is_empty i ≡ false → found (lookup t k i) ≡ true)
    → is_empty id ≡ false
    → (kind == k && i == id) ≡ true
    → found (lookup t kind id) ≡ true
named_optional t kind k id i known nonempty h =
    named t kind k id i (known (rw (==→≡ i id (and-true (kind == k) (i == id) h).1) nonempty)) h

-- A name in a list.
pub named_in :
    {A : Type 0} (t : Table) (kind k : Kind) (id : Text) (f : A → Check) (name : A → Text)
    (xs : List A)
    → each f xs ≡ ok tt
    → ((x : A) → f x ≡ ok tt → found (lookup t k (name x)) ≡ true)
    → (kind == k && any (λ x. name x == id) xs) ≡ true
    → found (lookup t kind id) ≡ true
named_in t kind k id f name xs h known ref =
    let (ek, hit) = and-true (kind == k) _ ref in
    let (x, passed, e) = each-any f (λ x. name x == id) xs h hit in
    named t kind k id (name x) (known x passed) (ground arith)

pub exists_found :
    (t : Table) (k : Kind) (i : Text) → exists t k i ≡ ok tt → found (lookup t k i) ≡ true
exists_found t k i h = ground arith

pub network_found :
    (t : Table) (value : Network)
    → unless_empty value.provider_network_id
        (exists t Kind.provider_network value.provider_network_id)
      ≡ ok tt
    → is_empty value.provider_network_id ≡ false
    → found (lookup t Kind.provider_network value.provider_network_id) ≡ true
network_found t value h e = ground arith

pub provider_network_found :
    (t : Table) (id : Text) (value : ProviderNetwork)
    → validate_provider_network_references t id value ≡ ok tt
    → is_empty value.default_segment_id ≡ false
    → found (lookup t Kind.provider_segment value.default_segment_id) ≡ true
unfolding validate_provider_network_references
provider_network_found t id value h e = ground arith

pub ip_allocation_found :
    (t : Table) (value : IpAllocation)
    → validate_ip_allocation_references t value ≡ ok tt
    → (found (lookup t Kind.subnet value.subnet_id) ≡ true)
      × (is_empty value.port_id ≡ false → found (lookup t Kind.port value.port_id) ≡ true)
unfolding validate_ip_allocation_references
ip_allocation_found t value h = (ground arith, λ e. ground arith)

pub router_interface_found :
    (t : Table) (value : RouterInterface)
    → validate_router_interface_references t value ≡ ok tt
    → (found (lookup t Kind.router value.router_id) ≡ true)
      × (found (lookup t Kind.subnet value.subnet_id) ≡ true)
      × (is_empty value.port_id ≡ false → found (lookup t Kind.port value.port_id) ≡ true)
unfolding validate_router_interface_references
router_interface_found t value h = (ground arith, ground arith, λ e. ground arith)

pub router_found :
    (t : Table) (id : Text) (value : Router)
    → validate_router_references t id value ≡ ok tt
    → is_empty value.external_network_id ≡ false
    → (found (lookup t Kind.network value.external_network_id) ≡ true)
      × (found (lookup t Kind.subnet value.external_subnet_id) ≡ true)
unfolding validate_router_references
router_found t id value h e = (ground arith, ground arith)

pub floating_ip_found :
    (t : Table) (value : FloatingIp)
    → validate_floating_ip_references t value ≡ ok tt
    → (found (lookup t Kind.provider_network value.provider_network_id) ≡ true)
      × (is_empty value.port_id ≡ false → found (lookup t Kind.port value.port_id) ≡ true)
      × (is_empty value.router_id ≡ false → found (lookup t Kind.router value.router_id) ≡ true)
unfolding validate_floating_ip_references
floating_ip_found t value h = (ground arith, λ e. ground arith, λ e. ground arith)

pub rule_found :
    (t : Table) (value : SecurityGroupRule)
    → validate_security_group_rule_references t value ≡ ok tt
    → (found (lookup t Kind.security_group value.security_group_id) ≡ true)
      × (is_empty value.remote_group_id ≡ false
          → found (lookup t Kind.security_group value.remote_group_id) ≡ true)
unfolding validate_security_group_rule_references
rule_found t value h = (ground arith, λ e. ground arith)

pub port_checks :
    (t : Table) (value : Port)
    → validate_port_references t value ≡ ok tt
    → (found (lookup t Kind.network value.network_id) ≡ true)
      × (each (validate_fixed_ip_reference t value) value.fixed_ips ≡ ok tt)
      × (each (exists t Kind.security_group) value.security_group_ids ≡ ok tt)
unfolding validate_port_references
port_checks t value h = (ground arith, ground arith, ground arith)

pub fixed_ip_found :
    (t : Table) (value : Port) (fixed : FixedIp)
    → validate_fixed_ip_reference t value fixed ≡ ok tt
    → found (lookup t Kind.subnet fixed.subnet_id) ≡ true
unfolding validate_fixed_ip_reference
fixed_ip_found t value fixed h = ground arith

-- A router without an external network has no external subnet either.
router_detached :
    (value : Router)
    → validate_router value ≡ ok tt
    → is_empty value.external_network_id ≡ true
    → is_empty value.external_subnet_id ≡ true
unfolding validate_router
router_detached value h e = ground arith

pub router_subnet_found :
    (t : Table) (id : Text) (value : Router)
    → validate_router value ≡ ok tt
    → validate_router_references t id value ≡ ok tt
    → is_empty value.external_subnet_id ≡ false
    → found (lookup t Kind.subnet value.external_subnet_id) ≡ true
router_subnet_found t id value v h e = elim (Bool-cases (is_empty value.external_network_id)) [
  | inl none_named ↦ cc (router_detached value v none_named)
  | inr one ↦ (router_found t id value h one).1
]
