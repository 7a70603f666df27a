-- ===== src/Ovsdb/Words.antt =====
-- The enumerations of internal/model as the texts Go keeps: string(x), and the conversion of a
-- text that is read. A text that is no constant's stays as it is, in `other`.
mod Addresses
mod Policy
mod Work
unfoldable pub use Addresses.{
  binding_status_text, binding_status_of, allocation_state_text, allocation_state_of,
  floating_status_text, floating_status_of, network_type_text, network_type_of,
}
pub use Addresses.{
  binding_status_known, binding_status_of-binding_status_text, allocation_state_known,
  allocation_state_of-allocation_state_text, floating_status_known,
  floating_status_of-floating_status_text, network_type_known, network_type_of-network_type_text,
}
unfoldable pub use Policy.{
  direction_text, direction_of, ethertype_text, ethertype_of, action_text, action_of,
}
pub use Policy.{
  direction_known, direction_of-direction_text, ethertype_known, ethertype_of-ethertype_text,
  action_known, action_of-action_text,
}
unfoldable pub use Work.{
  role_text, role_of, operation_status_text, operation_status_of, state_text, state_of,
  target_kind_of, target_kind_text,
}
pub use Work.{
  role_known, role_of-role_text, operation_status_known, operation_status_of-operation_status_text,
  is_stored_state, state_of-state_text, target_kind_of-target_kind_text,
}
