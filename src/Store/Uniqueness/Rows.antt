-- ===== src/Store/Uniqueness/Rows.antt =====
-- Tables without conflicts, under single writes.
use proxmox_ovn.Prelude.{
  ◌≡◌, refl, sym, ap, ◌∙◌, false, [], ◌∷◌, map, inl, inr, In, arith, ◌==◌, ==_iff,
}
use proxmox_ovn.Text.{Text, text_eq, is_empty}
use proxmox_ovn.Model.Kind.{Kind, kind_eq}
use proxmox_ovn.Model.Resource.{Resource, Body, resource_kind}
use proxmox_ovn.Store.Table.{Table, put, remove}
use proxmox_ovn.Store.Table.Laws.{In-put, In-remove}
use proxmox_ovn.Store.Unique.{conflict_field}
use proxmox_ovn.Store.Uniqueness.Symmetry.{==_comm, conflict_field_comm}

-- Two resources of one kind, with different ids, neither of them empty, share no unique field.
abbrev pub AreDistinct : Resource → Resource → Type 0
AreDistinct r x =
    resource_kind r ≡ resource_kind x
    → (r.meta.id == x.meta.id) ≡ false
    → is_empty r.meta.id ≡ false
    → is_empty x.meta.id ≡ false
    → conflict_field r.body x.body ≡ []

-- Any two entries of the table are distinct.
pub record IsDistinct (t : Table) : Type 0 where
  pub apart : (r x : Resource) → In r t → In x t → AreDistinct r x

-- The resource is distinct from every entry of the table.
abbrev pub Fits : Resource → Table → Type 0
Fits r t = (x : Resource) → In x t → AreDistinct r x

AreDistinct-comm : (r x : Resource) → AreDistinct r x → AreDistinct x r
AreDistinct-comm r x h k ids ex er =
    conflict_field_comm x.body r.body ∙ h (sym k) (==_comm r.meta.id x.meta.id ∙ ids) er ex

pub put-IsDistinct : (t : Table) (r : Resource) → IsDistinct t → Fits r t → IsDistinct (put t r)
put-IsDistinct t r d fits = record {
  apart = λ x y mx my. elim (In-put t r x mx) [
    | inl ex ↦ elim (In-put t r y my) [
      | inl ey ↦ λ k ids _ _. absurd (
          ground (
            arith,
            (==_iff x.meta.id y.meta.id).1 (ap (λ (z : Resource). z.meta.id) (ex ∙ sym ey)),
          ))
      | inr ny ↦ rw ex (fits y ny)
    ]
    | inr nx ↦ elim (In-put t r y my) [
      | inl ey ↦ rw ey (AreDistinct-comm r x (fits x nx))
      | inr ny ↦ d.apart x y nx ny
    ]
  ];
}

pub remove-IsDistinct : (t : Table) (k : Kind) (i : Text) → IsDistinct t → IsDistinct (remove t k i)
remove-IsDistinct t k i d = record {
  apart = λ x y mx my. d.apart x y (In-remove t k i x mx).0 (In-remove t k i y my).0;
}

-- A row under the key of another one, which makes the same claims.
pub record ClaimsLike (row stored : Resource) : Type 0 where
  pub kind : resource_kind row ≡ resource_kind stored
  pub id : row.meta.id ≡ stored.meta.id
  pub claims : (y : Body) → conflict_field row.body y ≡ conflict_field stored.body y

pub ClaimsLike-AreDistinct :
    (row stored other x : Resource)
    → ClaimsLike row stored
    → ClaimsLike other x
    → AreDistinct stored x
    → AreDistinct row other
ClaimsLike-AreDistinct row stored other x l o h k ids er ex =
    l.claims other.body
    ∙ conflict_field_comm stored.body other.body
    ∙ o.claims stored.body
    ∙ conflict_field_comm x.body stored.body
    ∙ h (sym l.kind ∙ k ∙ o.kind)
        (ap (λ i. i == x.meta.id) (sym l.id) ∙ ap (λ i. row.meta.id == i) (sym o.id) ∙ ids)
        (ap is_empty (sym l.id) ∙ er) (ap is_empty (sym o.id) ∙ ex)

pub ClaimsLike-refl : (x : Resource) → ClaimsLike x x
ClaimsLike-refl x = record { kind = refl; id = refl; claims = λ y. refl }

pub ClaimsLike-Fits :
    (t : Table) (row stored : Resource)
    → IsDistinct t
    → In stored t
    → ClaimsLike row stored
    → Fits row t
ClaimsLike-Fits t row stored d n l x m =
    ClaimsLike-AreDistinct row stored x x l (ClaimsLike-refl x) (d.apart stored x n m)

pub replace-IsDistinct :
    (t : Table) (row stored : Resource)
    → IsDistinct t
    → In stored t
    → ClaimsLike row stored
    → IsDistinct (put t row)
replace-IsDistinct t row stored d n l = put-IsDistinct t row d (ClaimsLike-Fits t row stored d n l)

-- A table whose rows are rewritten under their keys, with their claims.
module _ (f : Resource → Resource) (like : (r : Resource) → ClaimsLike (f r) r) where
  In-preimage : (t : Table) (y : Resource) → In y (map f t) → (x : Resource) × In x t × (f x ≡ y)
  In-preimage [] y m = elim m [ ]
  In-preimage (x ∷ t) y (inl e) = (x, inl refl, e)
  In-preimage (x ∷ t) y (inr m) = let (z, n, e) = In-preimage t y m in (z, inr n, e)

  pub map-IsDistinct : (t : Table) → IsDistinct t → IsDistinct (map f t)
  map-IsDistinct t d = record {
    apart = λ r x mr mx.
        let (r', nr, er) = In-preimage t r mr in
        let (x', nx, ex) = In-preimage t x mx in
        rw (← er, ← ex)
          (ClaimsLike-AreDistinct (f r') r' (f x') x' (like r') (like x') (d.apart r' x' nr nx));
  }
