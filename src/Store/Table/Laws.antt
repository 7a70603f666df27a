-- ===== src/Store/Table/Laws.antt =====
-- Lookups after writes, and which entries a write leaves.
use proxmox_ovn.Prelude.{
  ◌≡◌, refl, sym, ap, ◌∙◌, ◌⊎◌, inl, inr, true, false, [], ◌∷◌, none, some, arith, if◌then◌else◌,
  Bool-cases, In, ◌&&◌,
}
use proxmox_ovn.Text.{Text, text_beq}
use proxmox_ovn.Model.Kind.{Kind, kind_beq}
use proxmox_ovn.Model.Resource.{Resource, resource_kind}
use proxmox_ovn.Store.Table.{Table, lookup, put, remove, has_key, has_key_iff, found}

abbrev pub SameKey : Resource → Resource → Type 0
SameKey r x = (resource_kind r ≡ resource_kind x) × (r.meta.id ≡ x.meta.id)

pub has_key_self : (r : Resource) → has_key (resource_kind r) r.meta.id r ≡ true
has_key_self r = (has_key_iff _ _ r).1 (refl, refl)

pub has_key-eq :
    (r x : Resource) (k : Kind) (i : Text) → SameKey r x → has_key k i r ≡ has_key k i x
unfolding has_key
has_key-eq r x k i e =
    ap (λ kind. kind_beq kind k && text_beq r.meta.id i) e.0
    ∙ ap (λ id. kind_beq (resource_kind x) k && text_beq id i) e.1

pub SameKey-of_hit : (r x : Resource) → has_key (resource_kind r) r.meta.id x ≡ true → SameKey x r
SameKey-of_hit r x h = (has_key_iff _ _ x).0 h

-- Two entries that answer to one key have the same key.
pub has_key-shared :
    (x r : Resource) (k : Kind) (i : Text)
    → has_key k i x ≡ true
    → has_key k i r ≡ true
    → has_key (resource_kind r) r.meta.id x ≡ true
has_key-shared x r k i hx hr =
    let a = (has_key_iff k i x).0 hx in
    let b = (has_key_iff k i r).0 hr in (has_key_iff _ _ x).1 (a.0 ∙ sym b.0, a.1 ∙ sym b.1)

-- Entries with one key are met under the same keys.
pub key-has_key :
    (r x y : Resource)
    → SameKey r x
    → has_key (resource_kind r) r.meta.id y ≡ has_key (resource_kind x) x.meta.id y
key-has_key r x y e =
    ap (λ k. has_key k r.meta.id y) e.0 ∙ ap (λ i. has_key (resource_kind x) i y) e.1

pub lookup-put :
    (t : Table) (r : Resource) (k : Kind) (i : Text)
    → lookup (put t r) k i ≡ (if has_key k i r then some r else lookup t k i)
unfolding lookup put
lookup-put [] r k i = refl
lookup-put (x ∷ t) r k i = elim (Bool-cases (has_key (resource_kind r) r.meta.id x)) [
  | inl hit ↦ ground (arith, has_key-eq x r k i (SameKey-of_hit r x hit))
  | inr miss ↦ ground (arith, lookup-put t r k i, has_key-shared x r k i)
]

-- A write is read back under its own key, and leaves every other key alone.
pub lookup-put_self :
    (t : Table) (r : Resource) → lookup (put t r) (resource_kind r) r.meta.id ≡ some r
lookup-put_self t r = rw (lookup-put t r, has_key_self r)

pub found-put :
    (t : Table) (r : Resource) (k : Kind) (i : Text)
    → found (lookup t k i) ≡ true
    → found (lookup (put t r) k i) ≡ true
found-put t r k i h = rw (lookup-put t r k i) (ground arith)

-- An entry that a lookup finds has the key and stands in the table.
pub lookup-has_key :
    (t : Table) (k : Kind) (i : Text) (r : Resource) → lookup t k i ≡ some r → has_key k i r ≡ true
unfolding lookup
lookup-has_key [] k i r h = cc
lookup-has_key (x ∷ t) k i r h = ground (arith, lookup-has_key t k i r)

pub lookup-In : (t : Table) (k : Kind) (i : Text) (r : Resource) → lookup t k i ≡ some r → In r t
unfolding lookup
lookup-In [] k i r h = cc
lookup-In (x ∷ t) k i r h = elim (Bool-cases (has_key k i x)) [
  | inl hit ↦ inl (ground arith)
  | inr miss ↦ inr (lookup-In t k i r (ground arith))
]

-- Every entry that stands in the table makes its key known.
pub In-found :
    (t : Table) (r : Resource) → In r t → found (lookup t (resource_kind r) r.meta.id) ≡ true
unfolding lookup
In-found [] r m = elim m [ ]
In-found (x ∷ t) r (inl e) = ground (arith, has_key_self x, has_key-eq r x)
In-found (x ∷ t) r (inr m) = ground (arith, In-found t r m)

pub In-put : (t : Table) (r x : Resource) → In x (put t r) → (x ≡ r) ⊎ In x t
unfolding put
In-put [] r x (inl e) = inl (sym e)
In-put [] r x (inr m) = elim m [ ]
In-put (y ∷ t) r x h = elim (Bool-cases (has_key (resource_kind r) r.meta.id y)) [
  | inl hit ↦
      let h' : (r ≡ x) ⊎ In x t = rw hit at h in
      elim h' [ inl e ↦ inl (sym e) | inr m ↦ inr (inr m) ]
  | inr miss ↦
      let h' : (y ≡ x) ⊎ In x (put t r) = rw miss at h in
      elim h' [
        | inl e ↦ inr (inl e)
        | inr m ↦ elim (In-put t r x m) [ inl e ↦ inl e | inr n ↦ inr (inr n) ]
      ]
]

pub In-remove :
    (t : Table) (k : Kind) (i : Text) (x : Resource)
    → In x (remove t k i)
    → In x t × (has_key k i x ≡ false)
unfolding remove
In-remove [] k i x h = elim h [ ]
In-remove (y ∷ t) k i x h = elim (Bool-cases (has_key k i y)) [
  | inl hit ↦ let (m, e) = In-remove t k i x (rw hit at h) in (inr m, e)
  | inr miss ↦
      let h' : (y ≡ x) ⊎ In x (remove t k i) = rw miss at h in
      elim h' [
        | inl e ↦ (inl e, rw (← e) miss)
        | inr m ↦ let (n, e) = In-remove t k i x m in (inr n, e)
      ]
]

-- A removal leaves the other keys alone.
pub lookup-remove_ne :
    (t : Table) (k j : Kind) (i l : Text)
    → ((x : Resource) → has_key j l x ≡ true → has_key k i x ≡ false)
    → lookup (remove t k i) j l ≡ lookup t j l
unfolding lookup remove
lookup-remove_ne [] k j i l h = refl
lookup-remove_ne (x ∷ t) k j i l h = ground (arith, h x, lookup-remove_ne t k j i l h)

pub lookup-remove_self : (t : Table) (k : Kind) (i : Text) → lookup (remove t k i) k i ≡ none
unfolding lookup remove
lookup-remove_self [] k i = refl
lookup-remove_self (x ∷ t) k i = ground (arith, lookup-remove_self t k i)

-- Trying out a replacement and putting the current row back leaves the table as it was.
pub put-restore :
    (t : Table) (copy current : Resource)
    → SameKey copy current
    → lookup t (resource_kind current) current.meta.id ≡ some current
    → put (put t copy) current ≡ t
unfolding lookup put
put-restore [] copy current e h = cc
put-restore (x ∷ t) copy current e h =
    elim (Bool-cases (has_key (resource_kind copy) copy.meta.id x)) [
      | inl hit ↦ ground (
        arith,
        key-has_key copy current x e,
        has_key-eq copy current (resource_kind current) current.meta.id e,
        has_key_self current,
      )
      | inr miss ↦ ground (arith, key-has_key copy current x e, put-restore t copy current e)
    ]
