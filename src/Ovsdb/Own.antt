-- ===== src/Ovsdb/Own.antt =====
-- What decodeDatabase of internal/ovsdbstore/codec.go does to a snapshot at the store's own rows.
use proxmox_ovn.Prelude.{
  ◌≡◌, refl, subst, not, ◌||◌, pos, ltb_ℤ, none, some, inl, inr, ◌==◌, Bool-cases, some_inj,
}
use proxmox_ovn.Text.{Text, text, text_eq, is_empty}
use proxmox_ovn.Model.Kind.{kind_eq}
use proxmox_ovn.Ovsdb.Outcome.{
  Gives, Gives-bind, Outcome, done, malformed, bind-done, done_inj, unless, or_failed,
}
use proxmox_ovn.Ovsdb.Row.{Row, row_string, row_string_map, row_int64}
use proxmox_ovn.Ovsdb.Fields.{external, External}
use proxmox_ovn.Ovsdb.Snapshot.{Snapshot, Wire, find}
use proxmox_ovn.Ovsdb.Database.{
  is_there, decode_internal_operation, decode_own, decode_lock, decode_idempotency, decode_result,
  after_prefix, internal_scope_key, store_lock_id, is_lock,
}

-- The same stored resources and the same UUIDs.
abbrev pub IsSame : Snapshot → Snapshot → Type 0
IsSame s t = (t.uuid_to_id ≡ s.uuid_to_id) × (t.resources ≡ s.resources)

decode_lock-IsSame :
    (row : Row) (id : Text) (s : Snapshot) → Gives (IsSame s) (decode_lock row id s)
unfolding decode_lock
decode_lock-IsSame row id s =
    Gives-bind (unless (not (id == store_lock_id) || s.has_lock) malformed) _ (λ u.
      Gives-bind (row_string (text "action") row) _ (λ action.
        Gives-bind (row_string (text "target_kind") row) _ (λ kind.
          Gives-bind (row_string (text "target_id") row) _ (λ target.
            Gives-bind (row_string (text "idempotency_key") row) _ (λ key.
              Gives-bind (row_string (text "operation_status") row) _ (λ status.
                Gives-bind (row_string (text "state") row) _ (λ state.
                  Gives-bind (unless (not (is_lock action kind target key status state)) malformed)
                    _
                    (λ v. Gives-bind (row_int64 (text "revision") row) _ (λ epoch.
                      Gives-bind (unless (ltb_ℤ epoch (pos 1)) malformed) _
                        (λ w t e. subst (IsSame s) (done_inj e) (refl, refl)))))))))))

decode_idempotency-IsSame :
    (wire : Wire) (row : Row) (pairs : External) (s : Snapshot)
    → Gives (IsSame s) (decode_idempotency wire row pairs s)
unfolding decode_idempotency
decode_idempotency-IsSame wire row pairs s =
    Gives-bind (row_string (text "idempotency_key") row) _ (λ stored_scope.
      Gives-bind (or_failed (after_prefix internal_scope_key stored_scope) malformed) _ (λ scope.
        Gives-bind (unless (is_empty scope) malformed) _ (λ u.
          Gives-bind (decode_result wire pairs) _ (λ result.
            Gives-bind (unless (is_there (find scope s.idempotency)) malformed) _
              (λ v t e. subst (IsSame s) (done_inj e) (refl, refl))))))

module _ (wire : Wire) where
  -- A row of the store's own keeps what is stored and what a UUID stands for.
  pub decode_internal_operation-IsSame :
      (row : Row) (s t : Snapshot)
      → decode_internal_operation wire row s ≡ done (some t)
      → IsSame s t
  unfolding decode_internal_operation decode_own
  decode_internal_operation-IsSame row s t h =
      let (pairs, e, h1) = bind-done (row_string_map (text "external_ids") row) _ h in
      let name = external (text "pvn:internal-type") pairs in
      elim (Bool-cases (is_empty name)) [
        | inl plain ↦ let h3 : Outcome.done none ≡ done (some t) = rw plain at h1 in cc
        | inr own ↦
            let (id, e', h2) = bind-done (row_string (text "id") row) _ (rw own at h1) in
            elim (Bool-cases (name == text "store-lock")) [
              | inl lock ↦
                  let (next, e'', h3) =
                    bind-done (decode_lock row id s) (λ next. done (some next)) (rw lock at h2) in
                  subst (IsSame s) (some_inj (done_inj h3)) (decode_lock-IsSame row id s next e'')
              | inr other ↦ elim (Bool-cases (name == text "idempotency")) [
                | inl result ↦
                    let (next, e'', h3) =
                      bind-done (decode_idempotency wire row pairs s) (λ next. done (some next))
                        (rw (other, result) at h2) in
                    subst (IsSame s) (some_inj (done_inj h3))
                      (decode_idempotency-IsSame wire row pairs s next e'')
                | inr unknown ↦
                    let h3 : Outcome.failed malformed ≡ done (some t) = rw (other, unknown) at h2 in
                    cc
              ]
            ]
      ]
