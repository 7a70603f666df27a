-- ===== src/Ovsdb/Words/Addresses.antt =====
-- The status of a port, an address and a floating IP, and the type of a provider segment.
use proxmox_ovn.Prelude.{◌≡◌, refl, Bool, true, false, [], ◌==◌, if◌then◌else◌}
use proxmox_ovn.Text.{Text, text, text_eq, text_beq}
use proxmox_ovn.Model.Resource.{
  PortBindingStatus, IpAllocationState, FloatingIpStatus, ProviderNetworkType,
}

unfoldable pub binding_status_text : PortBindingStatus → Text
binding_status_text PortBindingStatus.unset = []
binding_status_text PortBindingStatus.unbound = text "unbound"
binding_status_text PortBindingStatus.binding = text "binding"
binding_status_text PortBindingStatus.bound = text "bound"
binding_status_text PortBindingStatus.detaching = text "detaching"
binding_status_text PortBindingStatus.error = text "error"
binding_status_text (PortBindingStatus.other s) = s

unfoldable pub binding_status_of : Text → PortBindingStatus
binding_status_of s =
    if s == []
    then PortBindingStatus.unset
    else if s == text "unbound"
    then PortBindingStatus.unbound
    else if s == text "binding"
    then PortBindingStatus.binding
    else if s == text "bound"
    then PortBindingStatus.bound
    else if s == text "detaching"
    then PortBindingStatus.detaching
    else if s == text "error"
    then PortBindingStatus.error
    else PortBindingStatus.other s

-- A text that is no word of the enumeration.
abbrev pub binding_status_known : PortBindingStatus → Bool
binding_status_known (PortBindingStatus.other _) = false
binding_status_known _ = true

pub binding_status_of-binding_status_text :
    (x : PortBindingStatus)
    → binding_status_known x ≡ true
    → binding_status_of (binding_status_text x) ≡ x
unfolding binding_status_of binding_status_text text_beq
binding_status_of-binding_status_text (PortBindingStatus.other _) h = cc
binding_status_of-binding_status_text PortBindingStatus.unset h = refl
binding_status_of-binding_status_text _ h = refl

unfoldable pub allocation_state_text : IpAllocationState → Text
allocation_state_text IpAllocationState.unset = []
allocation_state_text IpAllocationState.reserved = text "reserved"
allocation_state_text IpAllocationState.allocated = text "allocated"
allocation_state_text (IpAllocationState.other s) = s

unfoldable pub allocation_state_of : Text → IpAllocationState
allocation_state_of s =
    if s == []
    then IpAllocationState.unset
    else if s == text "reserved"
    then IpAllocationState.reserved
    else if s == text "allocated"
    then IpAllocationState.allocated
    else IpAllocationState.other s

-- A text that is no word of the enumeration.
abbrev pub allocation_state_known : IpAllocationState → Bool
allocation_state_known (IpAllocationState.other _) = false
allocation_state_known _ = true

pub allocation_state_of-allocation_state_text :
    (x : IpAllocationState)
    → allocation_state_known x ≡ true
    → allocation_state_of (allocation_state_text x) ≡ x
unfolding allocation_state_of allocation_state_text text_beq
allocation_state_of-allocation_state_text (IpAllocationState.other _) h = cc
allocation_state_of-allocation_state_text IpAllocationState.unset h = refl
allocation_state_of-allocation_state_text _ h = refl

unfoldable pub floating_status_text : FloatingIpStatus → Text
floating_status_text FloatingIpStatus.unset = []
floating_status_text FloatingIpStatus.down = text "down"
floating_status_text FloatingIpStatus.active = text "active"
floating_status_text FloatingIpStatus.error = text "error"
floating_status_text (FloatingIpStatus.other s) = s

unfoldable pub floating_status_of : Text → FloatingIpStatus
floating_status_of s =
    if s == []
    then FloatingIpStatus.unset
    else if s == text "down"
    then FloatingIpStatus.down
    else if s == text "active"
    then FloatingIpStatus.active
    else if s == text "error"
    then FloatingIpStatus.error
    else FloatingIpStatus.other s

-- A text that is no word of the enumeration.
abbrev pub floating_status_known : FloatingIpStatus → Bool
floating_status_known (FloatingIpStatus.other _) = false
floating_status_known _ = true

pub floating_status_of-floating_status_text :
    (x : FloatingIpStatus)
    → floating_status_known x ≡ true
    → floating_status_of (floating_status_text x) ≡ x
unfolding floating_status_of floating_status_text text_beq
floating_status_of-floating_status_text (FloatingIpStatus.other _) h = cc
floating_status_of-floating_status_text FloatingIpStatus.unset h = refl
floating_status_of-floating_status_text _ h = refl

unfoldable pub network_type_text : ProviderNetworkType → Text
network_type_text ProviderNetworkType.flat = text "flat"
network_type_text ProviderNetworkType.vlan = text "vlan"
network_type_text (ProviderNetworkType.other s) = s

unfoldable pub network_type_of : Text → ProviderNetworkType
network_type_of s =
    if s == text "flat"
    then ProviderNetworkType.flat
    else if s == text "vlan"
    then ProviderNetworkType.vlan
    else ProviderNetworkType.other s

-- A text that is no word of the enumeration.
abbrev pub network_type_known : ProviderNetworkType → Bool
network_type_known (ProviderNetworkType.other _) = false
network_type_known _ = true

pub network_type_of-network_type_text :
    (x : ProviderNetworkType)
    → network_type_known x ≡ true
    → network_type_of (network_type_text x) ≡ x
unfolding network_type_of network_type_text text_beq
network_type_of-network_type_text (ProviderNetworkType.other _) h = cc
network_type_of-network_type_text ProviderNetworkType.flat h = refl
network_type_of-network_type_text _ h = refl
