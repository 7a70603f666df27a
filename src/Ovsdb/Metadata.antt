-- ===== src/Ovsdb/Metadata.antt =====
-- What decodeMetadata of internal/ovsdbstore/codec.go lets through.
use proxmox_ovn.Prelude.{◌≡◌, refl, subst, Bool, true, false, not, ◌&&◌, ◌||◌, pos, ltb_ℤ, arith}
use proxmox_ovn.Text.{Text, text, is_empty}
use proxmox_ovn.Model.Kind.{Kind}
use proxmox_ovn.Model.Resource.{
  Metadata, Resource, ResourceState, resource_kind, body_kind, Body, network, subnet, port,
  ip_allocation, router, router_interface, floating_ip, provider_network, provider_segment,
  security_group, security_group_rule, node, operation,
}
use proxmox_ovn.Ovsdb.Outcome.{
  Outcome, done, malformed, ◌>>=◌, bind-done, done_inj, unless, unless-done,
}
use proxmox_ovn.Ovsdb.Row.{Row, row_string, row_int64, row_time}
use proxmox_ovn.Ovsdb.Words.{state_of, is_stored_state}
use proxmox_ovn.Ovsdb.Snapshot.{Snapshot, Wire}
use proxmox_ovn.Ovsdb.Fields.{decode_metadata}
use proxmox_ovn.Ovsdb.Decode.{
  decode_body, decode_resource, decode_network, decode_subnet, decode_port, decode_ip_allocation,
  decode_router, decode_router_interface, decode_floating_ip, decode_provider_network,
  decode_provider_segment, decode_security_group, decode_security_group_rule, decode_node,
  decode_operation,
}

-- An id, a revision from 1, an applied revision between 0 and the revision, a state of the four.
abbrev pub is_sound : Metadata → Bool
is_sound meta =
    not (is_empty meta.id)
    && not (ltb_ℤ meta.revision (pos 1))
    && not (ltb_ℤ meta.applied_revision (pos 0))
    && not (ltb_ℤ meta.revision meta.applied_revision)
    && is_stored_state meta.state

state_of-IsStored :
    (s : Text) (state : ResourceState) → state_of s ≡ done state → is_stored_state state ≡ true
unfolding state_of
state_of-IsStored s ResourceState.unset h = ground arith
state_of-IsStored s ResourceState.pending h = refl
state_of-IsStored s _ h = refl

sound-parts :
    (a b c d e : Bool)
    → (a || b || c || d) ≡ false
    → e ≡ true
    → (not a && not b && not c && not d && e) ≡ true
sound-parts a b c d e h h' = ground arith

pub decode_metadata_parts :
    (wire : Wire) (row : Row) (meta : Metadata)
    → decode_metadata wire row ≡ done meta
    → (row_string (text "id") row ≡ done meta.id) × (is_sound meta ≡ true)
unfolding decode_metadata
decode_metadata_parts wire row meta h =
    let (id, e1, h1) = bind-done (row_string (text "id") row) _ h in
    let (revision, e2, h2) = bind-done (row_int64 (text "revision") row) _ h1 in
    let (applied, e3, h3) = bind-done (row_int64 (text "applied_revision") row) _ h2 in
    let (name, e4, h4) = bind-done (row_string (text "state") row) _ h3 in
    let (last, e5, h5) = bind-done (row_string (text "last_error") row) _ h4 in
    let (created, e6, h6) = bind-done (row_time wire.parse_time (text "created_at") row) _ h5 in
    let (updated, e7, h7) = bind-done (row_time wire.parse_time (text "updated_at") row) _ h6 in
    let (u, one, h8) =
      bind-done
        (unless
          (is_empty id || ltb_ℤ revision (pos 1) || ltb_ℤ applied (pos 0) || ltb_ℤ revision applied)
          malformed)
        _ h7 in
    let (state, e8, h9) = bind-done (state_of name) _ h8 in
    let fine = unless-done _ malformed one in
    let stored = state_of-IsStored name state e8 in
    let parts : (row_string (text "id") row ≡ done id)
        × (is_sound (record {
          id = id;
          revision = revision;
          applied_revision = applied;
          state = state;
          last_error = last;
          created_at = created;
          updated_at = updated;
        })
            ≡ true) =
      (e1, sound-parts _ _ _ _ _ fine stored) in
    subst (λ m. (row_string (text "id") row ≡ done m.id) × (is_sound m ≡ true)) (done_inj h9) parts

kind-bind :
    {A : Type 0} (m : Outcome A) (make : A → Body) (kind : Kind) (body : Body)
    → ((a : A) → body_kind (make a) ≡ kind)
    → (m >>= λ a. done (make a)) ≡ done body
    → body_kind body ≡ kind
kind-bind m make kind body same h =
    let (a, e, e') = bind-done m (λ a. done (make a)) h in rw (← done_inj e') (same a)

module _ (wire : Wire) (refs : Snapshot) where
  decode_body-kind :
      (kind : Kind) (row : Row) (body : Body)
      → decode_body wire refs kind row ≡ done body
      → body_kind body ≡ kind
  unfolding decode_body
  decode_body-kind Kind.network row body h =
      kind-bind (decode_network refs row) network Kind.network body (λ a. refl) h
  decode_body-kind Kind.subnet row body h =
      kind-bind (decode_subnet wire refs row) subnet Kind.subnet body (λ a. refl) h
  decode_body-kind Kind.port row body h =
      kind-bind (decode_port refs row) port Kind.port body (λ a. refl) h
  decode_body-kind Kind.ip_allocation row body h =
      kind-bind (decode_ip_allocation refs row) ip_allocation Kind.ip_allocation body (λ a. refl) h
  decode_body-kind Kind.router row body h =
      kind-bind (decode_router wire refs row) router Kind.router body (λ a. refl) h
  decode_body-kind Kind.router_interface row body h =
      kind-bind (decode_router_interface refs row) router_interface Kind.router_interface body
        (λ a. refl) h
  decode_body-kind Kind.floating_ip row body h =
      kind-bind (decode_floating_ip refs row) floating_ip Kind.floating_ip body (λ a. refl) h
  decode_body-kind Kind.provider_network row body h =
      kind-bind (decode_provider_network refs row) provider_network Kind.provider_network body
        (λ a. refl) h
  decode_body-kind Kind.provider_segment row body h =
      kind-bind (decode_provider_segment refs row) provider_segment Kind.provider_segment body
        (λ a. refl) h
  decode_body-kind Kind.security_group row body h =
      kind-bind (decode_security_group row) security_group Kind.security_group body (λ a. refl) h
  decode_body-kind Kind.security_group_rule row body h =
      kind-bind (decode_security_group_rule refs row) security_group_rule Kind.security_group_rule
        body (λ a. refl) h
  decode_body-kind Kind.node row body h =
      kind-bind (decode_node wire row) node Kind.node body (λ a. refl) h
  decode_body-kind Kind.operation row body h =
      kind-bind (decode_operation wire row) operation Kind.operation body (λ a. refl) h

  -- A resource that decodeResource gives has the kind of its table, the id of its row, and sound
  -- metadata.
  pub decode_resource_parts :
      (kind : Kind) (row : Row) (resource : Resource)
      → decode_resource wire refs kind row ≡ done resource
      → (row_string (text "id") row ≡ done resource.meta.id)
        × (is_sound resource.meta ≡ true)
        × (resource_kind resource ≡ kind)
  unfolding decode_resource
  decode_resource_parts kind row resource h =
      let (meta, e, h1) = bind-done (decode_metadata wire row) _ h in
      let (body, e', h2) = bind-done (decode_body wire refs kind row) _ h1 in
      let (there, sound) = decode_metadata_parts wire row meta e in
      rw (← done_inj h2) (there, sound, decode_body-kind kind row body e')
