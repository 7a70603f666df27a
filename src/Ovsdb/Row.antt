-- ===== src/Ovsdb/Row.antt =====
-- internal/ovsdbstore/row.go. A row is its columns; libovsdb's sets and maps are values here, not
-- pointers, a number is one int64, and a map is the list of its pairs in the order Go visits them.
use proxmox_ovn.Prelude.{
  ℕ, Bool, true, false, ◌||◌, List, [], ◌∷◌, Option, none, some, ℤ, pos, ◌==◌, any, sort,
  if◌then◌else◌,
}
use proxmox_ovn.Text.{Text, text_eq, text_beq, text_lt, is_empty}
use proxmox_ovn.Ovsdb.Outcome.{
  Outcome, done, failed, malformed, ◌>>=◌, ◌>>◌, unless, or_failed, collect,
}

pub data Atom : Type 0 where
  str : Text → Atom
  bool : Bool → Atom
  number : ℤ → Atom
  uuid : Text → Atom

pub data Value : Type 0 where
  atom : Atom → Value
  set : List Atom → Value
  map : List (Atom × Atom) → Value

abbrev pub Row : Type 0
Row = List (Text × Value)

-- row[column]
unfoldable pub column : Text → Row → Option Value
column name [] = none
column name ((key, value) ∷ row) =
    let rest = column name row in if text_beq key name then some value else rest

unfoldable pub atom_string : Atom → Outcome Text
atom_string (str s) = done s
atom_string _ = failed malformed

unfoldable pub row_string : Text → Row → Outcome Text
unfolding column atom_string
row_string name row = elim (column name row) [
  | none ↦ done []
  | some (atom a) ↦ atom_string a
  | some _ ↦ failed malformed
]

unfoldable pub row_bool : Text → Row → Outcome Bool
unfolding column
row_bool name row = elim (column name row) [
  | none ↦ done false
  | some (atom (bool b)) ↦ done b
  | some _ ↦ failed malformed
]

unfoldable pub row_int64 : Text → Row → Outcome ℤ
unfolding column
row_int64 name row = elim (column name row) [
  | none ↦ done (pos 0)
  | some (atom (number n)) ↦ done n
  | some _ ↦ failed malformed
]

-- valueUUID of an element
unfoldable pub atom_uuid : Atom → Outcome Text
atom_uuid (uuid u) = unless (is_empty u) malformed >>= λ _. done u
atom_uuid _ = failed malformed

unfoldable pub value_uuid : Value → Outcome Text
unfolding atom_uuid
value_uuid (atom a) = atom_uuid a
value_uuid _ = failed malformed

unfoldable pub row_uuid : Text → Row → Outcome Text
unfolding column value_uuid
row_uuid name row = or_failed (column name row) malformed >>= value_uuid

-- valueSet, as a set of atoms: RFC 7047 permits a singleton set to be written as its atom. A map
-- is refused here; the source refuses it when it looks at the one element.
unfoldable pub value_set : Value → Outcome (List Atom)
value_set (set atoms) = done atoms
value_set (atom a) = done (a ∷ [])
value_set (map _) = failed malformed

-- The UUID of an optional reference; "" stands for none.
unfoldable pub optional_uuid : List Atom → Outcome Text
unfolding atom_uuid
optional_uuid [] = done []
optional_uuid (a ∷ []) = atom_uuid a
optional_uuid _ = failed malformed

unfoldable pub row_reference : Text → Bool → Row → Outcome Text
unfolding column value_uuid value_set optional_uuid
row_reference name false row = or_failed (column name row) malformed >>= value_uuid
row_reference name true row = elim (column name row) [
  | none ↦ done []
  | some value ↦ value_set value >>= optional_uuid
]

unfoldable pub row_set : Text → Row → Outcome (List Atom)
unfolding column value_set
row_set name row = elim (column name row) [ none ↦ done [] | some value ↦ value_set value ]

-- The loop over `seen`: an element stands in the list twice.
unfoldable pub has_repeat : List Text → Bool
has_repeat [] = false
has_repeat (s ∷ ss) = any (λ t. s == t) ss || has_repeat ss

unfoldable pub row_string_set : Text → Row → Outcome (List Text)
unfolding row_set atom_string has_repeat
row_string_set name row = do
  values ← row_set name row
  items ← collect atom_string values
  unless (has_repeat items) malformed
  done (sort text_lt items)

unfoldable pub row_map : Text → Row → Outcome (List (Atom × Atom))
unfolding column
row_map name row = elim (column name row) [
  | none ↦ done []
  | some (map pairs) ↦ done pairs
  | some _ ↦ failed malformed
]

abbrev string_pair : Atom × Atom → Outcome (Text × Text)
string_pair (str key, str value) = done (key, value)
string_pair _ = failed malformed

unfoldable pub row_string_map : Text → Row → Outcome (List (Text × Text))
unfolding row_map
row_string_map name row = row_map name row >>= collect string_pair

-- `parse` is time.Parse with RFC3339Nano, in UTC.
module _ (parse : Text → Option ℕ) where
  unfoldable pub row_time : Text → Row → Outcome ℕ
  unfolding row_string
  row_time name row = row_string name row >>= λ value. or_failed (parse value) malformed

  unfoldable pub row_optional_time : Text → Row → Outcome (Option ℕ)
  unfolding row_string
  row_optional_time name row = do
    value ← row_string name row
    let parsed = or_failed (parse value) malformed >>= λ t. done (some t)
    if is_empty value then done none else parsed
