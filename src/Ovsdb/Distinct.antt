-- ===== src/Ovsdb/Distinct.antt =====
-- validateSnapshotUnique of internal/ovsdbstore/validation.go against the conflicts of the store.
use proxmox_ovn.Prelude.{
  ◌≡◌, refl, sym, ap, subst, ◌∙◌, inl, inr, Bool, true, false, ◌++◌, List, [], ◌∷◌, map, In, any,
  select, Bool-cases, In-any, select-In, ◌==◌, ==_refl, ==_iff, arith,
}
use proxmox_ovn.Text.{Text, text_eq}
use proxmox_ovn.Model.Kind.{Kind, kind_eq, kinds}
use proxmox_ovn.Model.Ip.Overlap.{overlap_comm}
use proxmox_ovn.Model.Resource.{Resource, resource_kind, Body, subnet}
use proxmox_ovn.Store.Table.{Table}
use proxmox_ovn.Store.Uniqueness.Symmetry.{==_comm}
use proxmox_ovn.Store.Uniqueness.Rows.{IsDistinct}
use proxmox_ovn.Ovsdb.Row.{has_repeat}
use proxmox_ovn.Ovsdb.Unique.{
  concatenated, unique_keys, keys_of_kind, overlaps, has_overlap, is_snapshot_unique,
}
use proxmox_ovn.Ovsdb.Keys.Parts.{In-right, In-concatenated}
use proxmox_ovn.Ovsdb.Keys.{conflict_field-IsFound}

-- A text on both sides of an append comes twice.
repeat-append : (xs ys : List Text) (k : Text) → In k xs → In k ys → has_repeat (xs ++ ys) ≡ true
unfolding has_repeat
repeat-append [] ys k m n = elim m [ ]
repeat-append (x ∷ xs) ys k (inl e) n =
    rw (In-any (λ t. x == t) (xs ++ ys) k (In-right xs ys k n) (rw e (==_refl k))) refl
repeat-append (x ∷ xs) ys k (inr m) n = elim (Bool-cases (any (λ t. x == t) (xs ++ ys))) [
  | inl hit ↦ rw hit refl
  | inr miss ↦ rw miss (repeat-append xs ys k m n)
]

repeat-right : (xs ys : List Text) → has_repeat ys ≡ true → has_repeat (xs ++ ys) ≡ true
unfolding has_repeat
repeat-right [] ys h = h
repeat-right (x ∷ xs) ys h = elim (Bool-cases (any (λ t. x == t) (xs ++ ys))) [
  | inl hit ↦ rw hit refl
  | inr miss ↦ rw miss (repeat-right xs ys h)
]

module _ (f : Resource → List Text) (p : Resource → Bool) where
  keys-In :
      (t : Table) (x : Resource) (k : Text)
      → In x t
      → p x ≡ true
      → In k (f x)
      → In k (concatenated (map f (select p t)))
  keys-In t x k m h n = In-concatenated f (select p t) x k (select-In p t x m h) n

  -- Two entries with a key in common make the list of all keys repeat it.
  repeat-two :
      (t : Table) (r x : Resource) (k : Text)
      → (r.meta.id == x.meta.id) ≡ false
      → In r t
      → In x t
      → p r ≡ true
      → p x ≡ true
      → In k (f r)
      → In k (f x)
      → has_repeat (concatenated (map f (select p t))) ≡ true
  repeat-two [] r x k ids mr mx pr px kr kx = elim mr [ ]
  repeat-two (y ∷ t) r x k ids (inl er) (inl ex) pr px kr kx = absurd (
      ground
        (arith, (==_iff r.meta.id x.meta.id).1 (ap (λ (z : Resource). z.meta.id) (sym er ∙ ex))))
  repeat-two (y ∷ t) r x k ids (inl er) (inr mx) pr px kr kx =
      rw (subst (λ z. p z ≡ true) (sym er) pr)
        (repeat-append (f y) _ k (subst (λ z. In k (f z)) (sym er) kr) (keys-In t x k mx px kx))
  repeat-two (y ∷ t) r x k ids (inr mr) (inl ex) pr px kr kx =
      rw (subst (λ z. p z ≡ true) (sym ex) px)
        (repeat-append (f y) _ k (subst (λ z. In k (f z)) (sym ex) kx) (keys-In t r k mr pr kr))
  repeat-two (y ∷ t) r x k ids (inr mr) (inr mx) pr px kr kx = elim (Bool-cases (p y)) [
    | inl hit ↦ rw hit (repeat-right (f y) _ (repeat-two t r x k ids mr mx pr px kr kx))
    | inr miss ↦ rw miss (repeat-two t r x k ids mr mx pr px kr kx)
  ]

overlaps_comm : (a b : Body) → overlaps a b ≡ true → overlaps b a ≡ true
overlaps_comm (subnet s) (subnet t) h =
    rw (==_comm t.network_id s.network_id, overlap_comm t.cidr s.cidr) h
overlaps_comm _ _ h = cc

-- Two entries that overlap are found.
overlap-two :
    (t : Table) (r x : Resource)
    → (r.meta.id == x.meta.id) ≡ false
    → In r t
    → In x t
    → overlaps r.body x.body ≡ true
    → has_overlap t ≡ true
unfolding has_overlap
overlap-two [] r x ids mr mx h = elim mr [ ]
overlap-two (y ∷ t) r x ids (inl er) (inl ex) h = absurd (
    ground (arith, (==_iff r.meta.id x.meta.id).1 (ap (λ (z : Resource). z.meta.id) (sym er ∙ ex))))
overlap-two (y ∷ t) r x ids (inl er) (inr mx) h =
    rw (In-any (λ (other : Resource). overlaps y.body other.body) t x mx (rw er h)) refl
overlap-two (y ∷ t) r x ids (inr mr) (inl ex) h =
    rw
      (In-any (λ (other : Resource). overlaps y.body other.body) t r mr
        (rw ex (overlaps_comm r.body x.body h)))
      refl
overlap-two (y ∷ t) r x ids (inr mr) (inr mx) h =
    elim (Bool-cases (any (λ (other : Resource). overlaps y.body other.body) t)) [
      | inl hit ↦ rw hit refl
      | inr miss ↦ rw miss (overlap-two t r x ids mr mx h)
    ]

In-kinds : (k : Kind) → In k kinds
In-kinds Kind.floating_ip = inl refl
In-kinds Kind.ip_allocation = inr (inl refl)
In-kinds Kind.network = inr (inr (inl refl))
In-kinds Kind.node = inr (inr (inr (inl refl)))
In-kinds Kind.operation = inr (inr (inr (inr (inl refl))))
In-kinds Kind.port = inr (inr (inr (inr (inr (inl refl)))))
In-kinds Kind.provider_network = inr (inr (inr (inr (inr (inr (inl refl))))))
In-kinds Kind.provider_segment = inr (inr (inr (inr (inr (inr (inr (inl refl)))))))
In-kinds Kind.router = inr (inr (inr (inr (inr (inr (inr (inr (inl refl))))))))
In-kinds Kind.router_interface = inr (inr (inr (inr (inr (inr (inr (inr (inr (inl refl)))))))))
In-kinds Kind.security_group = inr (inr (inr (inr (inr (inr (inr (inr (inr (inr (inl refl))))))))))
In-kinds Kind.security_group_rule =
    inr (inr (inr (inr (inr (inr (inr (inr (inr (inr (inr (inl refl)))))))))))
In-kinds Kind.subnet =
    inr (inr (inr (inr (inr (inr (inr (inr (inr (inr (inr (inr (inl refl))))))))))))

-- A table that the snapshot's check accepts has no two resources of a kind, with different ids, in
-- conflict.
pub is_snapshot_unique-IsDistinct : (t : Table) → is_snapshot_unique t ≡ true → IsDistinct t
unfolding is_snapshot_unique
is_snapshot_unique-IsDistinct t h =
    let keys : any (λ kind. has_repeat (keys_of_kind t kind)) kinds ≡ false = ground arith in
    let free : has_overlap t ≡ false = ground arith in
    record {
      apart = λ r x mr mx same ids er ex. elim (conflict_field-IsFound r.body x.body) [
        | inl none ↦ none
        | inr (inl over) ↦ let hit = overlap-two t r x ids mr mx over in cc
        | inr (inr (k, kr, kx)) ↦
            let kind = resource_kind r in
            let twice =
              repeat-two (λ z. unique_keys z.body) (λ z. resource_kind z == kind) t r x k ids mr mx
                (==_refl kind) (rw (← same) (==_refl kind)) kr kx in
            let hit =
              In-any (λ j. has_repeat (keys_of_kind t j)) kinds kind (In-kinds kind) twice in
            cc
      ];
    }
