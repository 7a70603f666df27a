-- ===== src/Examples/Rows.antt =====
-- The theorems on the durable store's rows, at a port with two addresses and two security groups.
use proxmox_ovn.Prelude.{◌≡◌, refl, true, [], ◌∷◌, pos, sort, insert_sorted}
use proxmox_ovn.Text.{text, text_beq, text_lt}
use proxmox_ovn.Model.Kind.{Kind}
use proxmox_ovn.Model.Resource.{Resource, ResourceState, PortBindingStatus, Body, port}
use proxmox_ovn.Ovsdb.Outcome.{done}
use proxmox_ovn.Ovsdb.Row.{Row, str, bool, number, uuid, atom, set, map, has_repeat}
use proxmox_ovn.Ovsdb.Words.{binding_status_text}
use proxmox_ovn.Ovsdb.Fields.{
  encode_reference, encode_fixed_ips, encode_reference_set, uuid_of, encode_metadata, subnet_before,
}
use proxmox_ovn.Ovsdb.Encode.{row_of, encode_port, encode_body, encode_resource}
use proxmox_ovn.Ovsdb.Decode.{decode_resource}
use proxmox_ovn.Ovsdb.RoundTrip.Whole.{decode_resource-encode_resource}
use proxmox_ovn.Examples.Data.{
  stored, plain_wire, plain_wire-IsDocumented, few_rows, few_rows-IsConsistent,
}

abbrev a_port : Resource
a_port = record {
  meta = stored (text "p") (pos 3) (pos 2) ResourceState.ready 5 8;
  body = port (record {
    network_id = text "n";
    name = text "web";
    mac_address = text "02:00:00:00:00:01";
    fixed_ips =
        record { subnet_id = text "t"; address = text "10.0.1.5" }
        ∷ record { subnet_id = text "s"; address = text "10.0.0.5" }
        ∷ [];
    security_group_ids = text "h" ∷ text "g" ∷ [];
    admin_state_up = true;
    binding_status = PortBindingStatus.bound;
    node_id = text "a";
    vmid = pos 100;
    nic = text "net0";
    lsp_name = text "pvn-p";
    generation = pos 1;
    requested_chassis = text "a";
  });
}

abbrev port_row : Row
port_row = row_of plain_wire a_port.meta (
  (text "network", atom (uuid (text "un")))
      ∷ (text "name", atom (str (text "web")))
      ∷ (text "mac_address", atom (str (text "02:00:00:00:00:01")))
      ∷ (
        text "fixed_ips",
        map (
            (uuid (text "ut"), str (text "10.0.1.5"))
            ∷ (uuid (text "us"), str (text "10.0.0.5"))
            ∷ []),
      )
      ∷ (text "security_groups", set (uuid (text "uh") ∷ uuid (text "ug") ∷ []))
      ∷ (text "admin_state_up", atom (bool true))
      ∷ (text "binding_status", atom (str (text "bound")))
      ∷ (text "node", set (uuid (text "ua") ∷ []))
      ∷ (text "vmid", atom (number (pos 100)))
      ∷ (text "nic", atom (str (text "net0")))
      ∷ (text "lsp_name", atom (str (text "pvn-p")))
      ∷ (text "generation", atom (number (pos 1)))
      ∷ (text "requested_chassis", atom (str (text "a")))
      ∷ [],
  [],
)

port_written : encode_resource plain_wire few_rows a_port ≡ done port_row
unfolding encode_resource encode_body encode_port encode_metadata encode_reference encode_fixed_ips
    encode_reference_set uuid_of has_repeat text_beq binding_status_text
port_written = refl

abbrev port_again : Body
port_again = port (record {
  network_id = text "n";
  name = text "web";
  mac_address = text "02:00:00:00:00:01";
  fixed_ips =
      record { subnet_id = text "s"; address = text "10.0.0.5" }
      ∷ record { subnet_id = text "t"; address = text "10.0.1.5" }
      ∷ [];
  security_group_ids = text "g" ∷ text "h" ∷ [];
  admin_state_up = true;
  binding_status = PortBindingStatus.bound;
  node_id = text "a";
  vmid = pos 100;
  nic = text "net0";
  lsp_name = text "pvn-p";
  generation = pos 1;
  requested_chassis = text "a";
})

decode_resource-encode_resource_example :
    decode_resource plain_wire few_rows Kind.port port_row
    ≡ done (record { meta = a_port.meta; body = port_again })
unfolding sort insert_sorted text_lt subnet_before
decode_resource-encode_resource_example =
    decode_resource-encode_resource plain_wire plain_wire-IsDocumented few_rows
      few_rows-IsConsistent a_port port_row refl port_written
