-- ===== src/Ovsdb/Consistency.antt =====
-- The ids and UUIDs of the first pass of decodeDatabase in internal/ovsdbstore/codec.go.
use proxmox_ovn.Prelude.{
  ◌≡◌, refl, sym, ap, subst, ◌∙◌, true, false, List, [], ◌∷◌, Option, some, inl, inr, In, ◌==◌,
  Bool-cases, some_inj, ==→≡, ==_refl,
}
use proxmox_ovn.Text.{Text, text, text_eq, text_beq, text_beq_iff}
use proxmox_ovn.Model.Kind.{Kind, kind_eq}
use proxmox_ovn.Ovsdb.Outcome.{
  Outcome, done, malformed, bind-done, done_inj, unless, unless-done, or_failed,
}
use proxmox_ovn.Ovsdb.Row.{Row, row_string, row_uuid}
use proxmox_ovn.Ovsdb.Snapshot.{Snapshot, find}
use proxmox_ovn.Ovsdb.RoundTrip.Parts.{or_failed-done}
use proxmox_ovn.Ovsdb.Database.{RawDatabase, index_row, over, over_tables, is_there, with_kind}

-- The UUID of a row stands for the row's id.
abbrev pub IsIndexed : Snapshot → Kind → Row → Type 0
IsIndexed s kind row =
    (id key : Text)
    → row_string (text "id") row ≡ done id
    → row_uuid (text "_uuid") row ≡ done key
    → find key (s.uuid_to_id kind) ≡ some id

-- A later snapshot keeps what a UUID stands for.
abbrev pub IsKept : Snapshot → Snapshot → Type 0
IsKept s t =
    (kind : Kind) (key id : Text)
    → find key (s.uuid_to_id kind) ≡ some id
    → find key (t.uuid_to_id kind) ≡ some id

find_keeps :
    (pairs : List (Text × Text)) (key key' id id' : Text)
    → is_there (find key' pairs) ≡ false
    → find key pairs ≡ some id
    → find key ((key', id') ∷ pairs) ≡ some id
unfolding text_beq
find_keeps pairs key key' id id' free h = elim (Bool-cases (text_beq key' key)) [
  | inl same ↦
      let e = (text_beq_iff key' key).0 same in
      let there : is_there (find key' pairs) ≡ true = rw e (rw h refl) in cc
  | inr other ↦ rw other h
]

with_kind_keeps :
    (P : List (Text × Text) → Type 0) (kind k : Kind) (pairs : List (Text × Text))
    (f : Kind → List (Text × Text))
    → (P (f kind) → P pairs)
    → P (f k)
    → P (with_kind kind pairs f k)
with_kind_keeps P kind k pairs f keep h = elim (Bool-cases (k == kind)) [
  | inl same ↦ rw same (keep (subst (λ j. P (f j)) (==→≡ k kind same) h))
  | inr other ↦ rw other h
]

pub with_kind_here {ℓ} :
    {A : Type ℓ} (kind : Kind) (x : A) (f : Kind → A) → with_kind kind x f kind ≡ x
with_kind_here kind x f = rw (==_refl kind) refl

-- A UUID that is new stands for its id, and the others stand for what they stood for.
added :
    (kind : Kind) (key id : Text) (s t : Snapshot)
    → t ≡ record s { uuid_to_id = with_kind kind ((key, id) ∷ s.uuid_to_id kind) s.uuid_to_id }
    → is_there (find key (s.uuid_to_id kind)) ≡ false
    → IsKept s t × (find key (t.uuid_to_id kind) ≡ some id)
unfolding text_beq
added kind key id s t e free = rw e (
  (λ k key' id' there.
      with_kind_keeps (λ pairs. find key' pairs ≡ some id') kind k ((key, id) ∷ s.uuid_to_id kind)
        s.uuid_to_id (find_keeps (s.uuid_to_id kind) key' key id' id free) there),
  rw (with_kind_here kind ((key, id) ∷ s.uuid_to_id kind) s.uuid_to_id)
      (rw ((text_beq_iff key key).1 refl) refl),
)

index_row_lem :
    (kind : Kind) (row : Row) (s t : Snapshot)
    → index_row kind row s ≡ done t
    → IsKept s t × IsIndexed t kind row
unfolding index_row
index_row_lem kind row s t h =
    let (id, e, h1) = bind-done (row_string (text "id") row) _ h in
    let (key, e', h2) = bind-done (row_uuid (text "_uuid") row) _ h1 in
    let (u, one, h3) =
      bind-done (unless (is_there (find key (s.uuid_to_id kind))) malformed) _ h2 in
    let (kept, there) = added kind key id s t (sym (done_inj h3)) (unless-done _ malformed one) in
    (
      kept,
      λ id' key' g g'.
          subst (λ i. find key' (t.uuid_to_id kind) ≡ some i) (done_inj (sym e ∙ g))
            (subst (λ k. find k (t.uuid_to_id kind) ≡ some id) (done_inj (sym e' ∙ g')) there),
    )

-- What every step over a table keeps, and what a step gives for its row.
abbrev pub RowStep : Type 0
RowStep = Kind → Row → Snapshot → Outcome Snapshot

module _ (step : RowStep) (R : Snapshot → Snapshot → Type 0) (refl_R : (s : Snapshot) → R s s)
    (trans_R : (s t u : Snapshot) → R s t → R t u → R s u)
    (each_R : (kind : Kind) (row : Row) (s t : Snapshot) → step kind row s ≡ done t → R s t) where
  pub over_R :
      (kind : Kind) (rows : List Row) (s t : Snapshot) → over (step kind) rows s ≡ done t → R s t
  over_R kind [] s t h = subst (R s) (done_inj h) (refl_R s)
  over_R kind (row ∷ rows) s t h =
      let (next, e, h') = bind-done (step kind row s) (over (step kind) rows) h in
      trans_R s next t (each_R kind row s next e) (over_R kind rows next t h')

  pub over_tables_R :
      (raw : RawDatabase) (ks : List Kind) (s t : Snapshot)
      → over_tables step raw ks s ≡ done t
      → R s t
  unfolding over_tables
  over_tables_R raw [] s t h = subst (R s) (done_inj h) (refl_R s)
  over_tables_R raw (kind ∷ ks) s t h =
      let (rows, e, h1) = bind-done (or_failed (raw kind) malformed) _ h in
      let (next, e', h2) = bind-done (over (step kind) rows s) _ h1 in
      trans_R s next t (over_R kind rows s next e') (over_tables_R raw ks next t h2)

IsKept-trans : (s t u : Snapshot) → IsKept s t → IsKept t u → IsKept s u
IsKept-trans s t u a b = λ kind key id h. b kind key id (a kind key id h)

IsIndexed-kept :
    (s t : Snapshot) (kind : Kind) (row : Row)
    → IsKept s t
    → IsIndexed s kind row
    → IsIndexed t kind row
IsIndexed-kept s t kind row kept indexed = λ id key e e'. kept kind key id (indexed id key e e')

over-IsIndexed :
    (kind : Kind) (rows : List Row) (s t : Snapshot)
    → over (index_row kind) rows s ≡ done t
    → (row : Row) → In row rows
    → IsIndexed t kind row
over-IsIndexed kind [] s t h row m = elim m [ ]
over-IsIndexed kind (r ∷ rows) s t h row m =
    let (next, e, h') = bind-done (index_row kind r s) (over (index_row kind) rows) h in
    elim m [
      | inl same ↦ subst (IsIndexed t kind) same (
          IsIndexed-kept next t kind r
            (over_R index_row IsKept (λ s k key id h. h) IsKept-trans
              (λ k row s t h. (index_row_lem k row s t h).0) kind rows next t h')
            (index_row_lem kind r s next e).1)
      | inr later ↦ over-IsIndexed kind rows next t h' row later
    ]

-- After the first pass, the UUID of every row of every table stands for its id.
pub index_tables_lem :
    (raw : RawDatabase) (ks : List Kind) (s t : Snapshot)
    → over_tables index_row raw ks s ≡ done t
    → (kind : Kind) (rows : List Row) (row : Row) → In kind ks
    → raw kind ≡ some rows
    → In row rows
    → IsIndexed t kind row
unfolding over_tables
index_tables_lem raw [] s t h kind rows row k there m = elim k [ ]
index_tables_lem raw (first ∷ ks) s t h kind rows row k there m =
    let (rows', e, h1) = bind-done (or_failed (raw first) malformed) _ h in
    let (next, e', h2) = bind-done (over (index_row first) rows' s) _ h1 in
    elim k [
      | inl same ↦
          let listed : Option.some rows' ≡ some rows =
            sym (or_failed-done (raw first) malformed e) ∙ ap raw same ∙ there in
          subst (λ k. IsIndexed t k row) same
            (IsIndexed-kept next t first row
              (over_tables_R index_row IsKept (λ s k key id h. h) IsKept-trans
                (λ k row s t h. (index_row_lem k row s t h).0) raw ks next t h2)
              (over-IsIndexed first rows' s next e' row (subst (In row) (sym (some_inj listed)) m)))
      | inr later ↦ index_tables_lem raw ks next t h2 kind rows row later there m
    ]
