-- ===== src/Store/Integrity/Rewrites.antt =====
-- What single writes name, and tables that are rewritten row by row.
use proxmox_ovn.Prelude.{
  ℕ, int_eq, ◌≡◌, refl, sym, ◌∙◌, inl, inr, Bool, true, false, [], ◌∷◌, map, some, arith, In,
}
use proxmox_ovn.Text.{Text}
use proxmox_ovn.Platform.{Platform}
use proxmox_ovn.Result.{ok}
use proxmox_ovn.Model.Kind.{Kind, kind_eq}
use proxmox_ovn.Model.Resource.{Metadata, Resource, Body, body_kind, port, operation, Operation}
use proxmox_ovn.Store.Table.{Table, lookup, found}
use proxmox_ovn.Store.Table.Laws.{SameKey, has_key-eq, lookup-In}
use proxmox_ovn.Store.Referrers.{references, has_referrer, is_referenced}
use proxmox_ovn.Store.Idempotency.{Store}
use proxmox_ovn.Store.Create.{check_create, stamp_create, name_port}
use proxmox_ovn.Store.Update.{check_update, stamp_update}
use proxmox_ovn.Store.Lease.{failed_row, fence_row}
use proxmox_ovn.Store.Integrity.{Resolves, IsClosed}
use proxmox_ovn.Store.Integrity.Resolved.{validated-Resolves}
use proxmox_ovn.Store.Integrity.Writes.{Resolves-same}

references-name_port :
    (id : Text) (b : Body) (k : Kind) (i : Text)
    → references (name_port id b) k i ≡ references b k i
unfolding name_port references
references-name_port id (port v) k i = refl
references-name_port id _ k i = refl

pub created-Resolves :
    (p : Platform) (s : Store) (now : ℕ) (copy : Resource)
    → check_create p s copy ≡ ok tt
    → Resolves s.resources (stamp_create now copy).body
unfolding check_create stamp_create
created-Resolves p s now copy h =
    Resolves-same s.resources copy.body _ (references-name_port copy.meta.id copy.body)
      (validated-Resolves p s.resources copy.meta copy.body (ground arith) (ground arith))

pub updated-Resolves :
    (p : Platform) (t : Table) (now : ℕ) (current copy : Resource)
    → check_update p t current copy ≡ ok tt
    → Resolves t (stamp_update now current.meta copy).body
unfolding check_update stamp_update
updated-Resolves p t now current copy h =
    validated-Resolves p t copy.meta copy.body (ground arith) (ground arith)

pub unreferenced-has_referrer :
    (t : Table) (k : Kind) (i : Text) → is_referenced t k i ≡ false → has_referrer t k i ≡ false
unfolding is_referenced
unreferenced-has_referrer t k i h = ground arith

pub found-Resolves :
    (t : Table) (k : Kind) (i : Text) (r : Resource)
    → IsClosed t
    → lookup t k i ≡ some r
    → Resolves t r.body
found-Resolves t k i r c h = c.resolves r (lookup-In t k i r h)

-- A table that is rewritten row by row: keys and names stay.
module _ (f : Resource → Resource) (same : (r : Resource) → SameKey (f r) r)
    (names : (r : Resource) (k : Kind) (i : Text)
      → references (f r).body k i ≡ references r.body k i) where
  lookup-map-found :
      (t : Table) (k : Kind) (i : Text) → found (lookup (map f t) k i) ≡ found (lookup t k i)
  unfolding lookup
  lookup-map-found [] k i = refl
  lookup-map-found (r ∷ t) k i =
      ground (arith, has_key-eq (f r) r k i (same r), lookup-map-found t k i)

  In-map :
      (t u : Table) (x : Resource)
      → In x (map f t)
      → ((r : Resource) → In r t → Resolves u r.body)
      → Resolves u x.body
  In-map [] u x m h = elim m [ ]
  In-map (r ∷ t) u x (inl e) h =
      rw (← e) (Resolves-same u r.body (f r).body (names r) (h r (inl refl)))
  In-map (r ∷ t) u x (inr m) h = In-map t u x m (λ y n. h y (inr n))

  pub map-IsClosed : (t : Table) → IsClosed t → IsClosed (map f t)
  map-IsClosed t c = record {
    resolves =
        λ x m k i nonempty ref. lookup-map-found t k i ∙ In-map t t x m c.resolves k i nonempty ref;
  }

fenced_operation :
    (kind : Kind) (id : Text) (cutoff recovered : ℕ) (m : Metadata) (o : Operation)
    → (body_kind (fence_row kind id cutoff recovered (record { meta = m; body = operation o })).body
        ≡ Kind.operation)
      × ((fence_row kind id cutoff recovered (record { meta = m; body = operation o })).meta.id
          ≡ m.id)
unfolding fence_row failed_row
fenced_operation kind id cutoff recovered m o = ground arith

unfenced_body : Body → Bool
unfenced_body (operation o) = false
unfenced_body _ = true

pub fence_row-SameKey :
    (kind : Kind) (id : Text) (cutoff recovered : ℕ) (m : Metadata) (b : Body)
    → SameKey
        (fence_row kind id cutoff recovered (record { meta = m; body = b }))
        (record { meta = m; body = b })
unfolding fence_row
fence_row-SameKey kind id cutoff recovered m (operation o) =
    fenced_operation kind id cutoff recovered m o
fence_row-SameKey kind id cutoff recovered m _ = (refl, refl)

references-operation_kind :
    (b : Body) (k : Kind) (i : Text) → body_kind b ≡ Kind.operation → references b k i ≡ false
unfolding references
references-operation_kind b k i h = ground arith

pub references-fence_row :
    (kind : Kind) (id : Text) (cutoff recovered : ℕ) (m : Metadata) (b : Body) (k : Kind) (i : Text)
    → references (fence_row kind id cutoff recovered (record { meta = m; body = b })).body k i
      ≡ references b k i
unfolding fence_row
references-fence_row kind id cutoff recovered m (operation o) k i =
    references-operation_kind _ k i (fenced_operation kind id cutoff recovered m o).0
    ∙ sym (references-operation_kind (operation o) k i refl)
references-fence_row kind id cutoff recovered m _ k i = refl

references-operation : (b : Body) (i : Text) → references b Kind.operation i ≡ false
unfolding references
references-operation b i = ground arith

pub operation_unreferenced : (t : Table) (i : Text) → has_referrer t Kind.operation i ≡ false
unfolding has_referrer
operation_unreferenced [] i = refl
operation_unreferenced (r ∷ t) i =
    ground (arith, references-operation r.body i, operation_unreferenced t i)
