-- ===== src/Store/Uniqueness/Claims.antt =====
-- What the rows that methods write claim: a checked row fits the table, and the others claim
-- what the rows under them have claimed.
use proxmox_ovn.Prelude.{
  ℕ, int_eq, ◌≡◌, refl, sym, ap, ◌∙◌, inl, inr, Bool, true, false, not, ◌&&◌, [], ◌∷◌, ◌++◌, Option,
  none, some, arith, In, ℤ, Bool-cases, if-keeps, if◌then◌else◌, ◌==◌, ==→≡, ==_iff,
}
use proxmox_ovn.Text.{Text, text, text_eq, is_empty}
use proxmox_ovn.Platform.{Platform}
use proxmox_ovn.Result.{ok, already_exists, then-ok, refuse, refuse-ok, each-In}
use proxmox_ovn.Model.Kind.{kind_eq}
use proxmox_ovn.Model.Resource.{
  Metadata, Resource, Body, body_kind, resource_kind, port, floating_ip, node, operation, Operation,
  Node,
}
use proxmox_ovn.Model.Defaults.{set_defaults, default_body, mark_pending, mark_floating_reconciled}
use proxmox_ovn.Store.Table.{Table, Row}
use proxmox_ovn.Store.Unique.{conflict_field, conflicts_with, validate_unique}
use proxmox_ovn.Store.Idempotency.{Store}
use proxmox_ovn.Store.Create.{check_create, prepare_create, stamp_create, name_port, operation_key}
use proxmox_ovn.Store.Update.{check_update, stamp_update}
use proxmox_ovn.Store.Delete.{tombstone_of}
use proxmox_ovn.Store.Lease.{claimed_row, renewed_row, failed_row}
use proxmox_ovn.Store.Reconciled.{rendered, applied_rendering, failed_rendering, observe_row}
use proxmox_ovn.Store.Outcomes.Updates.{body_kind-mark_pending}
use proxmox_ovn.Store.Versions.{body_kind-name_port}
use proxmox_ovn.Store.Uniqueness.Symmetry.{==_comm}
use proxmox_ovn.Store.Uniqueness.Rows.{Fits, ClaimsLike, ClaimsLike-refl}

empty_text : (a : Text) → is_empty a ≡ true → a ≡ []
empty_text [] h = refl
empty_text (c ∷ a) h = cc

-- What the unique fields of operations, nodes and floating IPs leave out.
operation_claims :
    (o o' : Operation)
    → o.idempotency_key ≡ o'.idempotency_key
    → o.target_kind ≡ o'.target_kind
    → o.target_id ≡ o'.target_id
    → o.target_revision ≡ o'.target_revision
    → (y : Body) → conflict_field (operation o) y ≡ conflict_field (operation o') y
unfolding conflict_field
operation_claims o o' k t i r (operation v) = rw (k, t, i, r) refl
operation_claims o o' k t i r _ = refl

node_claims :
    (n n' : Node)
    → n.name ≡ n'.name
    → n.chassis_id ≡ n'.chassis_id
    → (y : Body) → conflict_field (node n) y ≡ conflict_field (node n') y
unfolding conflict_field
node_claims n n' a c (node v) = rw (a, c) refl
node_claims n n' a c _ = refl

conflict_field-mark_pending : (b y : Body) → conflict_field (mark_pending b) y ≡ conflict_field b y
unfolding conflict_field mark_pending
conflict_field-mark_pending (floating_ip f) (floating_ip g) = refl
conflict_field-mark_pending (floating_ip f) _ = refl
conflict_field-mark_pending _ y = refl

conflict_field-mark_floating :
    (error : Bool) (b y : Body)
    → conflict_field (mark_floating_reconciled error b) y ≡ conflict_field b y
unfolding conflict_field mark_floating_reconciled
conflict_field-mark_floating error (floating_ip f) (floating_ip g) = refl
conflict_field-mark_floating error (floating_ip f) _ = refl
conflict_field-mark_floating error _ y = refl

pub body_kind-mark_floating :
    (error : Bool) (b : Body) → body_kind (mark_floating_reconciled error b) ≡ body_kind b
unfolding mark_floating_reconciled
body_kind-mark_floating error (floating_ip f) = refl
body_kind-mark_floating error _ = refl

-- What passes validateUniqueLocked has no conflict with the entries that are not ignored.
validated_unique :
    (t : Table) (candidate : Resource) (ignored : Text) (x : Resource)
    → validate_unique t candidate ignored ≡ ok tt
    → In x t
    → resource_kind candidate ≡ resource_kind x
    → (x.meta.id == ignored) ≡ false
    → conflict_field candidate.body x.body ≡ []
unfolding validate_unique conflicts_with
validated_unique t candidate ignored x h m kind id =
    let miss = refuse-ok _ already_exists (
      each-In
        (λ (existing : Resource).
          refuse (conflicts_with candidate.body (resource_kind candidate) ignored existing)
            already_exists)
        t x (then-ok _ _ h).0 m) in
    empty_text _ (ground (arith, (==_iff (resource_kind x) (resource_kind candidate)).1 (sym kind)))

name_twice :
    (name id fresh : Text)
    → is_empty id ≡ false
    → is_empty fresh ≡ false
    → (if is_empty (if is_empty name && not (is_empty id) then fresh else name)
        then fresh
        else (if is_empty name && not (is_empty id) then fresh else name))
      ≡ (if is_empty name && not (is_empty id) then fresh else name)
name_twice name id fresh h e = ground arith

nonempty_id : (i : Text) → is_empty i ≡ false → (i == []) ≡ false
nonempty_id i h = elim (Bool-cases (i == [])) [
  | inr other ↦ other
  | inl same ↦ absurd (ground (arith, ap is_empty (==→≡ i [] same)))
]

-- With an id the defaults have named a port already.
named_port :
    (p : Platform) (id : Text) (b : Body)
    → is_empty id ≡ false
    → name_port id (mark_pending (default_body p id b)) ≡ mark_pending (default_body p id b)
unfolding name_port mark_pending default_body
named_port p id (port v) h = rw (name_twice v.lsp_name id (text "pvn-" ++ id) h refl) refl
named_port p id (floating_ip v) h = refl
named_port p id _ h = refl

prepared_named :
    (p : Platform) (key id : Text) (r : Resource)
    → is_empty (prepare_create p key id r).meta.id ≡ false
    → name_port (prepare_create p key id r).meta.id (prepare_create p key id r).body
      ≡ (prepare_create p key id r).body
unfolding prepare_create set_defaults
prepared_named p key id r h =
    named_port p (if is_empty r.meta.id then id else r.meta.id) (operation_key key r.body) h

pub created-Fits :
    (p : Platform) (s : Store) (now : ℕ) (key id : Text) (r : Resource)
    → check_create p s (prepare_create p key id r) ≡ ok tt
    → Fits (stamp_create now (prepare_create p key id r)) s.resources
unfolding check_create stamp_create
created-Fits p s now key id r h x m kind ids er ex =
    let copy = prepare_create p key id r in
    ap (λ b. conflict_field b x.body) (prepared_named p key id r er)
    ∙ validated_unique s.resources copy [] x (ground arith) m
        (sym (body_kind-name_port copy.meta.id copy.body) ∙ kind) (nonempty_id x.meta.id ex)

pub updated-Fits :
    (p : Platform) (t : Table) (now : ℕ) (current copy : Resource)
    → check_update p t current copy ≡ ok tt
    → Fits (stamp_update now current.meta copy) t
unfolding check_update stamp_update
updated-Fits p t now current copy h x m kind ids er ex =
    validated_unique t copy copy.meta.id x (ground arith) m kind
      (==_comm x.meta.id copy.meta.id ∙ ids)

pub tombstone-ClaimsLike : (now : ℕ) (r : Resource) → ClaimsLike (tombstone_of now r) r
unfolding tombstone_of
tombstone-ClaimsLike now r = record {
  kind = body_kind-mark_pending r.body;
  id = refl;
  claims = conflict_field-mark_pending r.body;
}

pub rendered-ClaimsLike :
    (revision : ℤ) (error : Option Text) (now : ℕ) (r : Resource)
    → ClaimsLike (rendered revision error now r) r
unfolding rendered applied_rendering failed_rendering
rendered-ClaimsLike revision none now r =
    if-keeps (λ x. ClaimsLike x r) (revision == r.meta.revision) _ _
      (record {
        kind = body_kind-mark_floating false r.body;
        id = refl;
        claims = conflict_field-mark_floating false r.body;
      })
      (record { kind = refl; id = refl; claims = λ y. refl })
rendered-ClaimsLike revision (some e) now r =
    if-keeps (λ x. ClaimsLike x r) (revision == r.meta.revision) _ _
      (record {
        kind = body_kind-mark_floating true r.body;
        id = refl;
        claims = conflict_field-mark_floating true r.body;
      })
      (ClaimsLike-refl r)

-- The rows that methods write over an operation or a node, as they were found.
abbrev pub row_resource : Metadata → Body → Resource
row_resource m b = record { meta = m; body = b }

pub claimed-ClaimsLike :
    (o : Row Operation) (owner : Text) (now : ℕ)
    → ClaimsLike (claimed_row o owner now) (row_resource o.meta (operation o.value))
unfolding claimed_row
claimed-ClaimsLike o owner now = record {
  kind = refl;
  id = refl;
  claims = operation_claims _ o.value refl refl refl refl;
}

pub renewed-ClaimsLike :
    (o : Row Operation) (now : ℕ)
    → ClaimsLike (renewed_row o now) (row_resource o.meta (operation o.value))
unfolding renewed_row
renewed-ClaimsLike o now = record { kind = refl; id = refl; claims = λ y. refl }

pub failed-ClaimsLike :
    (o : Row Operation) (e : Text) (now : ℕ)
    → ClaimsLike (failed_row o e now) (row_resource o.meta (operation o.value))
unfolding failed_row
failed-ClaimsLike o e now = record {
  kind = refl;
  id = refl;
  claims = operation_claims _ o.value refl refl refl refl;
}

pub observed-ClaimsLike :
    (n : Row Node) (seen : ℕ) → ClaimsLike (observe_row n seen) (row_resource n.meta (node n.value))
unfolding observe_row
observed-ClaimsLike n seen = record {
  kind = refl;
  id = refl;
  claims = node_claims _ n.value (ground arith) (ground arith);
}
