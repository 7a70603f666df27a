-- ===== src/Store/Table/Found.antt =====
-- What a lookup of a row of one kind has found.
use proxmox_ovn.Prelude.{
  ◌≡◌, refl, sym, ap, ◌∙◌, ◌⊎◌, inl, inr, Option, some, arith, Option-cases, [], ◌∷◌, In,
}
use proxmox_ovn.Text.{Text}
use proxmox_ovn.Model.Kind.{Kind}
use proxmox_ovn.Model.Resource.{Resource, Body, Operation, operation, Node, node}
use proxmox_ovn.Store.Table.{
  Table, Row, lookup, cast_found, as_row, operation?, node?, has_key_iff, rows,
}
use proxmox_ovn.Store.Table.Laws.{lookup-has_key}

module _ {A : Type 0} (cast : Body → Option A) where
  pub as_row-some :
      (r : Resource) (row : Row A)
      → as_row cast r ≡ some row
      → (cast r.body ≡ some row.value) × (r.meta ≡ row.meta)
  as_row-some r row h = elim (Option-cases (cast r.body)) [
    | inl e ↦ absurd (ground arith)
    | inr (v, e) ↦ (ground arith, ground arith)
  ]

  -- The entry behind a row that a lookup found.
  pub found_row :
      (t : Table) (k : Kind) (id : Text) (row : Row A)
      → cast_found cast (lookup t k id) ≡ some row
      → (r : Resource) × (lookup t k id ≡ some r)
        × (cast r.body ≡ some row.value)
        × (r.meta ≡ row.meta)
  found_row t k id row h = elim (Option-cases (lookup t k id)) [
    | inl e ↦ absurd (ground arith)
    | inr (r, e) ↦ let (v, m) = as_row-some r row (ground arith) in (r, e, v, m)
  ]

  -- A row that was found under an id has that id.
  pub found_id :
      (t : Table) (k : Kind) (id : Text) (row : Row A)
      → cast_found cast (lookup t k id) ≡ some row
      → row.meta.id ≡ id
  found_id t k id row h =
      let (r, e, _, m) = found_row t k id row h in
      ap (λ x. x.id) (sym m) ∙ ((has_key_iff k id r).0 (lookup-has_key t k id r e)).1

pub operation_of : (b : Body) (o : Operation) → operation? b ≡ some o → b ≡ operation o
operation_of (operation o') o h = ap operation (ground arith)
operation_of _ o h = absurd (ground arith)

pub node_of : (b : Body) (n : Node) → node? b ≡ some n → b ≡ node n
node_of (node n') n h = ap node (ground arith)
node_of _ n h = absurd (ground arith)

-- A row of a kind stands in the table.
pub In-rows :
    {A : Type 0} (cast : Body → Option A) (t : Table) (row : Row A)
    → In row (rows cast t)
    → (r : Resource) × In r t × (cast r.body ≡ some row.value) × (r.meta ≡ row.meta)
unfolding rows
In-rows cast [] row m = elim m [ ]
In-rows cast (r ∷ t) row m = elim (Option-cases (as_row cast r)) [
  | inl none_here ↦ let (x, n, v, e) = In-rows cast t row (rw none_here at m) in (x, inr n, v, e)
  | inr (x, here) ↦
      let m' : (x ≡ row) ⊎ In row (rows cast t) = rw here at m in
      elim m' [
        | inl e ↦
            let (v, same) = as_row-some cast r row (here ∙ ap some e) in (r, inl refl, v, same)
        | inr n ↦ let (y, n', v, e) = In-rows cast t row n in (y, inr n', v, e)
      ]
]
