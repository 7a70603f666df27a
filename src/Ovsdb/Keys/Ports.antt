-- ===== src/Ovsdb/Keys/Ports.antt =====
-- The keys of two ports that conflict.
use proxmox_ovn.Prelude.{
  ◌≡◌, refl, inl, inr, true, false, not, ◌&&◌, ◌++◌, [], map, and-true, any-In, ==→≡, ◌==◌, int_eq,
  arith, pos, ltb_ℤ,
}
use proxmox_ovn.Text.{text, text_eq, is_empty, equal_fold, to_lower}
use proxmox_ovn.Model.Kind.{kind_eq}
use proxmox_ovn.Model.Resource.{Port, port}
use proxmox_ovn.Store.Unique.{conflict_ports, shares_fixed_ip}
use proxmox_ovn.Ovsdb.Unique.{joined, concatenated, address_key, place_key, unique_keys}
use proxmox_ovn.Ovsdb.Keys.Parts.{
  HaveCommon, IsFound, field-cases, same, In-left, In-right, In-concatenated,
}

-- A fixed address that both ports have.
fixed_ip_found :
    (l r : Port)
    → shares_fixed_ip l r ≡ true
    → HaveCommon
        (concatenated (map address_key l.fixed_ips))
        (concatenated (map address_key r.fixed_ips))
unfolding shares_fixed_ip
fixed_ip_found l r h =
    let (f, m, h1) = any-In _ l.fixed_ips h in
    let (full, h2) = and-true (not (is_empty f.address)) _ h1 in
    let (g, n, h3) = any-In _ r.fixed_ips h2 in
    let (e, e') = and-true (f.subnet_id == g.subnet_id) (f.address == g.address) h3 in
    let subnets = ==→≡ f.subnet_id g.subnet_id e in
    let addresses = ==→≡ f.address g.address e' in
    let empty : is_empty f.address ≡ false = ground arith in
    (
      text "fixed_ips.subnet_id,address=" ++ joined f.subnet_id f.address,
      In-concatenated address_key l.fixed_ips f _ m (rw empty (inl refl)),
      In-concatenated address_key r.fixed_ips g _ n
          (rw (← addresses) (rw empty (inl (rw subnets refl)))),
    )

place_found :
    (l r : Port)
    → (not (is_empty l.node_id)
        && ltb_ℤ (pos 0) l.vmid
        && not (is_empty l.nic)
        && l.node_id == r.node_id
        && l.vmid == r.vmid
        && l.nic == r.nic)
      ≡ true
    → HaveCommon (place_key l) (place_key r)
place_found l r h =
    let node : not (is_empty l.node_id) ≡ true = ground arith in
    let vm : ltb_ℤ (pos 0) l.vmid ≡ true = ground arith in
    let nic : not (is_empty l.nic) ≡ true = ground arith in
    let node_same = ==→≡ l.node_id r.node_id (ground arith) in
    let vm_same = ==→≡ l.vmid r.vmid (ground arith) in
    let nic_same = ==→≡ l.nic r.nic (ground arith) in
    rw (← node_same, ← vm_same, ← nic_same) (rw (node, vm, nic) (_, inl refl, inl refl))

pub ports-IsFound : (l r : Port) → IsFound (conflict_ports l r) (port l) (port r)
unfolding conflict_ports unique_keys equal_fold
ports-IsFound l r =
    field-cases _ _ _
      (λ h. inr (
        _,
        inl refl,
        inl (
            same (text "mac_address=") (to_lower l.mac_address) (to_lower r.mac_address)
              (and-true (not (is_empty l.mac_address)) (equal_fold l.mac_address r.mac_address)
                h).1),
      ))
      (field-cases _ _ _
        (λ h. inr (
          _,
          inr (inl refl),
          inr (
              inl (
                same (text "lsp_name=") l.lsp_name r.lsp_name
                  (and-true (not (is_empty l.lsp_name)) (l.lsp_name == r.lsp_name) h).1)),
        ))
        (field-cases _ _ _
          (λ h.
            let (k, m, n) = place_found l r h in
            inr
              (k, inr (inr (In-left (place_key l) _ k m)), inr (inr (In-left (place_key r) _ k n))))
          (field-cases _ _ []
            (λ h.
              let (k, m, n) = fixed_ip_found l r h in
              inr (
                k,
                inr (inr (In-right (place_key l) _ k m)),
                inr (inr (In-right (place_key r) _ k n)),
              ))
            (inl refl))))
