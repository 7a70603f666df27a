-- ===== src/Store/Reconciled/Reports.antt =====
-- What a report of the renderer or of a node changes, and what it leaves.
use proxmox_ovn.Prelude.{
  ℕ, max, leb, [], ◌≡◌, refl, sym, ap, subst, ◌∙◌, inl, inr, Bool, true, false, ◌&&◌, Option, none,
  some, arith, ℤ, ltb_ℤ, ltb_ℤ_irrefl, ltb_ℤ_asym, int_eq, some_inj, Bool-cases, if◌then◌else◌,
  ◌==◌,
}
use proxmox_ovn.Text.{Text, text_eq}
use proxmox_ovn.Result.{ok}
use proxmox_ovn.Model.Kind.{Kind, kind_eq}
use proxmox_ovn.Model.Resource.{Resource, ResourceState, Node, Metadata, resource_kind}
use proxmox_ovn.Store.Uniqueness.Claims.{body_kind-mark_floating}
use proxmox_ovn.Store.Table.Laws.{lookup-has_key}
use proxmox_ovn.Store.Table.{has_key_iff, Row, lookup, put, cast_found, node?}
use proxmox_ovn.Store.Table.Found.{found_id, found_row, node_of}
use proxmox_ovn.Store.Idempotency.{Store}
use proxmox_ovn.Store.Reconciled.{
  rendered, applied_rendering, failed_rendering, mark_reconciled, observe_row,
  observe_node_heartbeat, seen_since,
}
use proxmox_ovn.Store.Outcomes.Operations.{mark_outcome, observe_outcome}
use proxmox_ovn.Store.Versions.{DiffersAt, AgreesElsewhere-DiffersAt, put-DiffersAt}

-- The state that a report about the current revision leaves.
abbrev pub reported : Option Text → ResourceState
reported none = ResourceState.ready
reported (some _) = ResourceState.error

-- The message that a report about the current revision leaves.
abbrev pub message_of : Option Text → Text
message_of none = []
message_of (some message) = message

-- The applied revision after a report: a success raises it to the revision it is about.
abbrev pub applied_after : Option Text → ℤ → ℤ → ℤ
applied_after none revision applied = if ltb_ℤ applied revision then revision else applied
applied_after (some _) revision applied = applied

-- What any rendering leaves of the metadata.
rendered_meta :
    (revision : ℤ) (error : Option Text) (now : ℕ) (r : Resource)
    → ((rendered revision error now r).meta.revision ≡ r.meta.revision)
      × ((rendered revision error now r).meta.id ≡ r.meta.id)
      × ((rendered revision error now r).meta.created_at ≡ r.meta.created_at)
      × ((rendered revision error now r).meta.state
          ≡ (if revision == r.meta.revision then reported error else r.meta.state))
      × ((rendered revision error now r).meta.last_error
          ≡ (if revision == r.meta.revision then message_of error else r.meta.last_error))
      × ((rendered revision error now r).meta.applied_revision
          ≡ applied_after error revision r.meta.applied_revision)
unfolding rendered applied_rendering failed_rendering
rendered_meta revision none now r =
    (ground arith, ground arith, ground arith, ground arith, ground arith, ground arith)
rendered_meta revision (some e) now r =
    (ground arith, ground arith, ground arith, ground arith, ground arith, ground arith)

rendered_kind :
    (revision : ℤ) (error : Option Text) (now : ℕ) (r : Resource)
    → resource_kind (rendered revision error now r) ≡ resource_kind r
unfolding rendered applied_rendering failed_rendering
rendered_kind revision none now r = ground (arith, body_kind-mark_floating false r.body)
rendered_kind revision (some e) now r = ground (arith, body_kind-mark_floating true r.body)

applied_after_ge :
    (error : Option Text) (revision applied : ℤ)
    → ltb_ℤ (applied_after error revision applied) applied ≡ false
applied_after_ge none revision applied =
    ground (arith, ltb_ℤ_irrefl applied, ltb_ℤ_asym applied revision)
applied_after_ge (some _) revision applied = ltb_ℤ_irrefl applied

-- MarkReconciled never changes a revision, an id or a time of creation. A report about the
-- current revision makes the state ready or error and sets the message; one about an older
-- revision leaves both. A success raises the applied revision to the reported one where it was
-- lower, and nothing lowers it. The answered row stands under its key in the store after the
-- call, and every other key has its former row.
pub mark_reconciled_meta :
    (done : Bool) (now : ℕ) (kind : Kind) (id : Text) (revision : ℤ) (error : Option Text)
    (s : Store) (r : Resource) {c : Resource × Store}
    → lookup s.resources kind id ≡ some r
    → mark_reconciled done now kind id revision error s ≡ ok c
    → ((c.0.meta.revision ≡ r.meta.revision)
        × (c.0.meta.id ≡ r.meta.id)
        × (c.0.meta.created_at ≡ r.meta.created_at)
        × (c.0.meta.state ≡ (if revision == r.meta.revision then reported error else r.meta.state))
        × (c.0.meta.last_error
            ≡ (if revision == r.meta.revision then message_of error else r.meta.last_error))
        × (c.0.meta.applied_revision ≡ applied_after error revision r.meta.applied_revision))
      × (ltb_ℤ c.0.meta.applied_revision r.meta.applied_revision ≡ false)
      × DiffersAt kind id (some c.0) s.resources c.1.resources
mark_reconciled_meta done now kind id revision error s r {c} there h =
    let o = mark_outcome done now kind id revision error s h in
    let same = some_inj (sym o.found_stored ∙ there) in
    let row : c.0 ≡ rendered revision error now r =
      o.written ∙ ap (rendered revision error now) same in
    let meta = rendered_meta revision error now r in
    let (_, same_id, _, _, _, applied) = meta in
    let key = (has_key_iff kind id r).0 (lookup-has_key s.resources kind id r there) in
    let after : c.1.resources ≡ put s.resources (rendered revision error now r) =
      ap (λ (x : Store). x.resources) o.after
      ∙ ap (λ x. put s.resources (rendered revision error now x)) same in
    (
      rw row meta,
      rw (row, applied) (applied_after_ge error revision r.meta.applied_revision),
      rw row (
          put-DiffersAt s.resources c.1.resources (rendered revision error now r) kind id after
            (rendered_kind revision error now r ∙ key.0, same_id ∙ key.1)),
    )

-- The later of the stored time, where there is one, and the observed time.
abbrev pub latest : Option ℕ → ℕ → ℕ
latest none seen = seen
latest (some last) seen = max last seen

seen_cases :
    (n : Node) (stored : Option ℕ) (seen : ℕ)
    → n.last_seen_at ≡ stored
    → (if seen_since stored seen then n else record n { last_seen_at = some seen })
      ≡ record n { last_seen_at = some (latest stored seen) }
unfolding seen_since
seen_cases n none seen e = refl
seen_cases n (some last) seen e = elim (Bool-cases (leb seen last)) [
  | inl le ↦
      let m : last ≡ max last seen = ground arith in
      rw le (ap (λ o. record n { last_seen_at = o }) (e ∙ ap some m))
  | inr gt ↦
      let m : seen ≡ max last seen = ground arith in
      rw gt (ap (λ o. record n { last_seen_at = some o }) m)
]

latest_seen :
    (n : Node) (seen : ℕ)
    → (if seen_since n.last_seen_at seen then n else record n { last_seen_at = some seen })
      ≡ record n { last_seen_at = some (latest n.last_seen_at seen) }
latest_seen n seen = seen_cases n n.last_seen_at seen refl

observed_row :
    (n : Row Node) (seen : ℕ)
    → (node? (observe_row n seen).body
        ≡ some (
            if seen_since n.value.last_seen_at seen
            then n.value
            else record n.value { last_seen_at = some seen }))
      × ((observe_row n seen).meta ≡ n.meta)
unfolding observe_row
observed_row n seen = (refl, refl)

observed_kind : (n : Row Node) (seen : ℕ) → resource_kind (observe_row n seen) ≡ Kind.node
unfolding observe_row
observed_kind n seen = refl

-- The store after a heartbeat on this row.
abbrev observed_store : Store → ℕ → Row Node → Store
observed_store s seen n =
    if seen_since n.value.last_seen_at seen
    then s
    else record s { resources = put s.resources (observe_row n seen) }

observed_store_late :
    (s : Store) (seen : ℕ) (n : Row Node)
    → seen_since n.value.last_seen_at seen ≡ true
    → observed_store s seen n ≡ s
observed_store_late s seen n h = rw h refl

observed_store_new :
    (s : Store) (seen : ℕ) (n : Row Node)
    → seen_since n.value.last_seen_at seen ≡ false
    → observed_store s seen n ≡ record s { resources = put s.resources (observe_row n seen) }
observed_store_new s seen n h = rw h refl

-- A heartbeat that is not later writes the row that is there.
observed_stays :
    (s : Store) (id : Text) (seen : ℕ) (n : Row Node)
    → cast_found node? (lookup s.resources Kind.node id) ≡ some n
    → seen_since n.value.last_seen_at seen ≡ true
    → lookup s.resources Kind.node id ≡ some (observe_row n seen)
unfolding observe_row
observed_stays s id seen n there late =
    let (r, e, v, m) = found_row node? s.resources Kind.node id n there in
    rw late (
      e
      ∙ ap some (
          ap (λ (x : Metadata). record { meta = x; body = r.body }) m
          ∙ ap (λ b. record { meta = n.meta; body = b }) (node_of r.body n.value v)))

observed_store-DiffersAt :
    (s : Store) (id : Text) (seen : ℕ) (n : Row Node)
    → cast_found node? (lookup s.resources Kind.node id) ≡ some n
    → DiffersAt Kind.node id
        (some (observe_row n seen))
        s.resources
        (observed_store s seen n).resources
observed_store-DiffersAt s id seen n there =
    elim (Bool-cases (seen_since n.value.last_seen_at seen)) [
      | inl late ↦
          subst
            (λ (x : Store).
              DiffersAt Kind.node id (some (observe_row n seen)) s.resources x.resources)
            (sym (observed_store_late s seen n late))
            (AgreesElsewhere-DiffersAt Kind.node id _ s.resources s.resources
              (observed_stays s id seen n there late) (λ k i other. refl))
      | inr new ↦
          subst
            (λ (x : Store).
              DiffersAt Kind.node id (some (observe_row n seen)) s.resources x.resources)
            (sym (observed_store_new s seen n new))
            (put-DiffersAt s.resources _ (observe_row n seen) Kind.node id refl (
              observed_kind n seen,
              ap (λ (x : Metadata). x.id) (observed_row n seen).1
                  ∙ found_id node? s.resources Kind.node id n there,
            ))
    ]

-- ObserveNodeHeartbeat changes no metadata, answers the node with the later of the two times,
-- and leaves the answered row under the node's key and the former rows under every other one.
pub observe_node_heartbeat_later :
    (done : Bool) (id : Text) (expected : ℤ) (seen : ℕ) (s : Store) (n : Row Node)
    {c : Resource × Store}
    → cast_found node? (lookup s.resources Kind.node id) ≡ some n
    → observe_node_heartbeat done id expected seen s ≡ ok c
    → (c.0.meta ≡ n.meta)
      × (node? c.0.body
          ≡ some (record n.value { last_seen_at = some (latest n.value.last_seen_at seen) }))
      × DiffersAt Kind.node id (some c.0) s.resources c.1.resources
observe_node_heartbeat_later done id expected seen s n {c} there h =
    let o = observe_outcome done id expected seen s h in
    let same = some_inj (sym o.found_stored ∙ there) in
    let (body, meta) = observed_row n seen in
    let row = o.written ∙ ap (λ (x : Row Node). observe_row x seen) same in
    (
      ap (λ (x : Resource). x.meta) row ∙ meta,
      ap (λ (x : Resource). node? x.body) row ∙ body ∙ ap some (latest_seen n.value seen),
      λ k i.
          ap (λ (x : Store). lookup x.resources k i) (o.after ∙ ap (observed_store s seen) same)
          ∙ observed_store-DiffersAt s id seen n there k i
          ∙ ap
              (λ (x : Resource).
                if k == Kind.node && i == id then some x else lookup s.resources k i)
              (sym row),
    )
