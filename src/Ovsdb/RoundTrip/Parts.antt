-- ===== src/Ovsdb/RoundTrip/Parts.antt =====
-- The round trip of references and of sets of texts in internal/ovsdbstore/codec.go.
use proxmox_ovn.Prelude.{
  ◌≡◌, refl, sym, ap, ◌∙◌, inl, inr, Bool, true, false, List, [], ◌∷◌, map, Option, none, some,
  sort, insert_sorted, Bool-cases, if◌then◌else◌, Option-cases, arith,
}
use proxmox_ovn.Text.{Text, text_lt}
use proxmox_ovn.Result.{Error}
use proxmox_ovn.Model.Kind.{Kind}
use proxmox_ovn.Ovsdb.Outcome.{
  Outcome, done, refused, ◌>>=◌, bind-done, done_inj, unless-done, unless, or_failed, collect,
}
use proxmox_ovn.Ovsdb.Snapshot.{Snapshot, IsConsistent, find}
use proxmox_ovn.Ovsdb.Row.{
  Atom, Value, Row, uuid, atom, set, atom_string, atom_uuid, value_uuid, value_set, optional_uuid,
  has_repeat, column, row_reference, row_set, row_string_set,
}
use proxmox_ovn.Ovsdb.Fields.{
  encode_reference, decode_reference, encode_string_set, encode_unique_string_set, uuid_of, id_of,
}

pub or_failed-done {ℓ} :
    {A : Type ℓ} (o : Option A) (e : _) {a : A} → or_failed o e ≡ done a → o ≡ some a
or_failed-done none e h = cc
or_failed-done (some a) e h = ground arith

-- Reading back element by element what was written element by element.
pub collect-collect {ℓ μ κ} :
    {A : Type ℓ} {B : Type μ} {C : Type κ} (f : A → Outcome B) (g : B → Outcome C) (h : A → C)
    → ((x : A) (y : B) → f x ≡ done y → g y ≡ done (h x))
    → (xs : List A) (ys : List B) → collect f xs ≡ done ys
    → collect g ys ≡ done (map h xs)
collect-collect f g h back [] ys e = rw (← done_inj e) refl
collect-collect f g h back (x ∷ xs) ys e =
    let (y, ey, e') = bind-done (f x) (λ y. collect f xs >>= λ ys. done (y ∷ ys)) e in
    let (rest, er, e'') = bind-done (collect f xs) (λ ys. done (y ∷ ys)) e' in
    rw (← done_inj e'', back x y ey, collect-collect f g h back xs rest er) refl

pub collect-map {ℓ μ} :
    {A : Type ℓ} {B : Type μ} (f : A → B) (g : B → Outcome A) (xs : List A)
    → ((x : A) → g (f x) ≡ done x)
    → collect g (map f xs) ≡ done xs
collect-map f g [] back = refl
collect-map f g (x ∷ xs) back = rw (back x, collect-map f g xs back) refl

module _ (refs : Snapshot) (consistent : IsConsistent refs) where
  pub id_of-uuid_of :
      (kind : Kind) (id : Text) (a : Atom)
      → uuid_of refs kind id ≡ done a
      → id_of refs kind a ≡ done id
  unfolding uuid_of id_of atom_uuid
  id_of-uuid_of kind id a h = elim (Option-cases (find id (refs.resources kind))) [
    | inl missing ↦ cc (rw missing at h)
    | inr (entry, found) ↦
        let (full, back) = consistent kind id entry found in
        rw (← done_inj (rw found at h), full, back) refl
  ]

  module _ (kind : Kind) (id name : Text) (row : Row) (value : Value) where
    -- What an id that stands in the snapshot is written as, read back.
    reads_found :
        (optional : Bool)
        → (or_failed (find id (refs.resources kind)) (refused Error.conflict) >>= λ entry.
            done (if optional then set (uuid entry.uuid ∷ []) else atom (uuid entry.uuid)))
          ≡ done value
        → column name row ≡ some value
        → decode_reference refs kind optional name row ≡ done id
    unfolding decode_reference row_reference value_uuid atom_uuid optional_uuid value_set
    reads_found true h there = elim (Option-cases (find id (refs.resources kind))) [
      | inl missing ↦
          let h' : Outcome.failed (refused Error.conflict) ≡ done value = rw missing at h in cc
      | inr (entry, found) ↦
          let (full, back) = consistent kind id entry found in
          rw (there, row_reference, ← done_inj (rw found at h)) (rw full (rw full (rw back refl)))
    ]
    reads_found false h there = elim (Option-cases (find id (refs.resources kind))) [
      | inl missing ↦
          let h' : Outcome.failed (refused Error.conflict) ≡ done value = rw missing at h in cc
      | inr (entry, found) ↦
          let (full, back) = consistent kind id entry found in
          rw (there, row_reference, ← done_inj (rw found at h)) (rw full (rw full (rw back refl)))
    ]

  -- A reference that was written is read back as its id.
  pub decode_reference-encode_reference :
      (kind : Kind) (optional : Bool) (id name : Text) (row : Row) (value : Value)
      → encode_reference refs kind optional id ≡ done value
      → column name row ≡ some value
      → decode_reference refs kind optional name row ≡ done id
  unfolding encode_reference decode_reference row_reference optional_uuid value_set
  decode_reference-encode_reference kind true [] name row value h there =
      rw (there, ← done_inj h, decode_reference, row_reference) refl
  decode_reference-encode_reference kind false [] name row value h there =
      reads_found kind [] name row value false h there
  decode_reference-encode_reference kind optional (c ∷ id) name row value h there =
      reads_found kind (c ∷ id) name row value optional h there

-- A set of texts is read back in order.
pub row_string_set-encode_string_set :
    (values : List Text) (name : Text) (row : Row)
    → has_repeat values ≡ false
    → column name row ≡ some (encode_string_set values)
    → row_string_set name row ≡ done (sort text_lt values)
unfolding row_string_set row_set value_set encode_string_set atom_string
row_string_set-encode_string_set values name row distinct there =
    rw (there, row_string_set, row_set)
      (rw (collect-map Atom.str atom_string values (λ s. refl)) (rw distinct refl))

pub row_string_set-encode_unique_string_set :
    (values : List Text) (name : Text) (row : Row) (value : Value)
    → encode_unique_string_set values ≡ done value
    → column name row ≡ some value
    → row_string_set name row ≡ done (sort text_lt values)
unfolding encode_unique_string_set
row_string_set-encode_unique_string_set values name row value h there =
    let (u, one, e) =
      bind-done (unless (has_repeat values) (refused Error.conflict))
        (λ _. done (encode_string_set values)) h in
    row_string_set-encode_string_set values name row (unless-done _ _ one)
      (there ∙ ap some (sym (done_inj e)))

-- A sort by a key commutes with taking the keys.
map-insert_sorted :
    {A : Type 0} (f : A → Text) (x : A) (xs : List A)
    → insert_sorted text_lt (f x) (map f xs)
      ≡ map f (insert_sorted (λ a b. text_lt (f a) (f b)) x xs)
unfolding insert_sorted
map-insert_sorted f x [] = refl
map-insert_sorted f x (y ∷ ys) = elim (Bool-cases (text_lt (f y) (f x))) [
  | inl later ↦ rw later (ap (λ zs. f y ∷ zs) (map-insert_sorted f x ys))
  | inr here ↦ rw here refl
]

pub map-sort :
    {A : Type 0} (f : A → Text) (xs : List A)
    → sort text_lt (map f xs) ≡ map f (sort (λ a b. text_lt (f a) (f b)) xs)
unfolding sort
map-sort f [] = refl
map-sort f (x ∷ xs) = rw (map-sort f xs) (map-insert_sorted f x _)
