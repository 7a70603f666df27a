-- ===== src/Ovsdb/RoundTrip/Policy.antt =====
-- Round trips: Security groups, their rules, nodes and operations, in internal/ovsdbstore/codec.go.
use proxmox_ovn.Prelude.{
  ◌≡◌, inl, inr, refl, ℕ, true, false, List, [], ◌∷◌, map, all, sort, Option, none, some, ltb→lt,
  In, In-sort,
}
use proxmox_ovn.Text.{Text, text, text_eq, text_beq, text_lt}
use proxmox_ovn.Model.Kind.{Kind}
use proxmox_ovn.Model.Resource.{
  Metadata, SecurityGroup, SecurityGroupRule, Node, Operation, NodeRole,
}
use proxmox_ovn.Ovsdb.Outcome.{done, bind-done, done_inj}
use proxmox_ovn.Ovsdb.Snapshot.{Snapshot, IsConsistent, Wire, IsDocumented, year_10000}
use proxmox_ovn.Ovsdb.Words.{
  action_of-action_text, action_known, direction_of-direction_text, direction_known,
  ethertype_of-ethertype_text, ethertype_known, operation_status_of-operation_status_text,
  operation_status_known, target_kind_of-target_kind_text, role_text, role_of, role_known,
  role_of-role_text,
}
use proxmox_ovn.Ovsdb.Row.{
  Row, column, atom_string, row_string, row_bool, row_int64, row_optional_time, has_repeat, str,
  atom,
}
use proxmox_ovn.Ovsdb.Fields.{
  External, encode_reference, encode_operation_payload, encode_optional_time,
}
use proxmox_ovn.Ovsdb.Encode.{
  encode_security_group, encode_security_group_rule, encode_node, encode_operation, row_of,
}
use proxmox_ovn.Ovsdb.Decode.{
  decode_security_group, decode_security_group_rule, decode_node, decode_operation,
}
use proxmox_ovn.Ovsdb.RoundTrip.Plain.{role_before, is_written_time}
use proxmox_ovn.Ovsdb.RoundTrip.Parts.{
  decode_reference-encode_reference, row_string_set-encode_string_set, map-sort,
}
use proxmox_ovn.Ovsdb.RoundTrip.Lists.{
  row_string_map-encode_string_map, decode_operation_payload-encode_operation_payload, all-In,
}

module _ (wire : Wire) (refs : Snapshot) (consistent : IsConsistent refs) (meta : Metadata) where
  pub decode_security_group-encode_security_group :
      (s : SecurityGroup) (out : Row × External)
      → encode_security_group s ≡ done out
      → decode_security_group (row_of wire meta out) ≡ done (s)
  unfolding atom_string column decode_security_group encode_security_group row_bool row_string
      text_beq
  decode_security_group-encode_security_group s out h = rw (← done_inj h) refl

  pub decode_security_group_rule-encode_security_group_rule :
      (s : SecurityGroupRule) (out : Row × External)
      → direction_known s.direction ≡ true
      → ethertype_known s.ethertype ≡ true
      → action_known s.action ≡ true
      → encode_security_group_rule refs s ≡ done out
      → decode_security_group_rule refs (row_of wire meta out) ≡ done (s)
  unfolding atom_string column decode_security_group_rule encode_security_group_rule row_int64
      row_string text_beq
  decode_security_group_rule-encode_security_group_rule s out direction_is_known ethertype_is_known
        action_is_known h =
      let (v1, w1, e1) =
        bind-done (encode_reference refs Kind.security_group false s.security_group_id) _ h in
      let (v2, w2, e2) =
        bind-done (encode_reference refs Kind.security_group true s.remote_group_id) _ e1 in
      rw
        (
          ← done_inj e2,
          decode_reference-encode_reference refs consistent Kind.security_group false
              s.security_group_id (text "security_group") _ v1 w1 refl,
          decode_reference-encode_reference refs consistent Kind.security_group true
              s.remote_group_id (text "remote_group") _ v2 w2 refl,
        )
        (rw
          (
            direction_of-direction_text s.direction direction_is_known,
            ethertype_of-ethertype_text s.ethertype ethertype_is_known,
            action_of-action_text s.action action_is_known,
          )
          refl)

roles_of :
    (roles : List NodeRole)
    → ((r : NodeRole) → In r roles → role_known r ≡ true)
    → map role_of (map role_text roles) ≡ roles
roles_of [] known = refl
roles_of (r ∷ roles) known =
    rw (role_of-role_text r (known r (inl refl)), roles_of roles (λ s m. known s (inr m))) refl

module _ (wire : Wire) (documented : IsDocumented wire) where
  -- A time that may be missing is read back from its text.
  row_optional_time-encode_optional_time :
      (time : Option ℕ) (name : Text) (row : Row)
      → is_written_time time ≡ true
      → column name row ≡ some (atom (str (encode_optional_time wire time)))
      → row_optional_time wire.parse_time name row ≡ done time
  unfolding row_optional_time row_string atom_string encode_optional_time
  row_optional_time-encode_optional_time none name row fits there = rw (there, row_string) refl
  row_optional_time-encode_optional_time (some t) name row fits there =
      rw (there, row_string)
        (rw (documented.time_written t) (rw (documented.time t (ltb→lt t year_10000 fits)) refl))

  module _ (meta : Metadata) where
    pub decode_operation-encode_operation :
        (o : Operation) (out : Row × External)
        → operation_status_known o.operation_status ≡ true
        → is_written_time o.started_at ≡ true
        → is_written_time o.completed_at ≡ true
        → encode_operation wire o ≡ done out
        → decode_operation wire (row_of wire meta out) ≡ done o
    unfolding encode_operation decode_operation row_string row_int64 column atom_string text_beq
    decode_operation-encode_operation o out known started completed h =
        let (v1, w1, e1) = bind-done (encode_operation_payload wire o.payload) _ h in
        rw
          (
            ← done_inj e1,
            row_optional_time-encode_optional_time o.started_at (text "started_at") _ started refl,
            row_optional_time-encode_optional_time o.completed_at (text "completed_at") _ completed
                refl,
            row_string_map-encode_string_map v1 (text "external_ids") _ refl,
            decode_operation_payload-encode_operation_payload wire o.payload v1 w1,
          )
          (rw
            (
              operation_status_of-operation_status_text o.operation_status known,
              target_kind_of-target_kind_text o.target_kind,
            )
            refl)

    pub decode_node-encode_node :
        (n : Node) (out : Row × External)
        → all role_known n.roles ≡ true
        → has_repeat (map role_text n.roles) ≡ false
        → is_written_time n.last_seen_at ≡ true
        → encode_node wire n ≡ done out
        → decode_node wire (row_of wire meta out)
          ≡ done (record n { roles = sort role_before n.roles })
    unfolding encode_node decode_node row_string row_bool column atom_string text_beq role_before
    decode_node-encode_node n out known distinct seen h =
        rw
          (
            ← done_inj h,
            row_string_set-encode_string_set (map role_text n.roles) (text "roles") _ distinct refl,
            row_optional_time-encode_optional_time n.last_seen_at (text "last_seen_at") _ seen refl,
          )
          (rw (map-sort role_text n.roles) (
            rw
              (roles_of (sort (λ a b. text_lt (role_text a) (role_text b)) n.roles)
                (λ r m. all-In role_known n.roles known r (In-sort _ n.roles r m)))
              refl))
