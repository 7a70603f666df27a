-- ===== src/Ovsdb/Database.antt =====
-- The two passes of decodeDatabase in internal/ovsdbstore/codec.go and decodeInternalOperation. The
-- tables are visited in the order of their kinds; the checks of the whole snapshot that follow, of
-- references and uniqueness, are those of internal/controlstore/memory.go.
use proxmox_ovn.Prelude.{
  Bool, true, false, not, ◌&&◌, ◌||◌, List, [], ◌∷◌, Option, none, some, pos, ltb_ℤ, nat_beq,
  if◌then◌else◌, ◌==◌,
}
use proxmox_ovn.Text.{Text, text, text_eq, is_empty}
use proxmox_ovn.Model.Kind.{Kind, kind_eq, kinds}
use proxmox_ovn.Model.Resource.{Body, Metadata, operation}
use proxmox_ovn.Model.Validation.Policy.{validate_operation_payload}
use proxmox_ovn.Model.Validation.Whole.{validate}
use proxmox_ovn.Ovsdb.Outcome.{
  Outcome, done, failed, malformed, ◌>>=◌, ◌>>◌, unless, or_failed, checked,
}
use proxmox_ovn.Ovsdb.Row.{Row, row_string, row_int64, row_uuid, row_string_map}
use proxmox_ovn.Ovsdb.Words.{is_stored_state, target_kind_of}
use proxmox_ovn.Ovsdb.Snapshot.{Snapshot, StoredResult, Wire, find}
use proxmox_ovn.Ovsdb.Fields.{External, external}
use proxmox_ovn.Ovsdb.Decode.{decode_resource}

abbrev pub is_there {ℓ} : {A : Type ℓ} → Option A → Bool
is_there none = false
is_there (some a) = true

-- m[kind] = x
abbrev pub with_kind {ℓ} : {A : Type ℓ} → Kind → A → (Kind → A) → Kind → A
with_kind kind x f k = if k == kind then x else f k

-- newSnapshot
abbrev pub new_snapshot : Snapshot
new_snapshot = record {
  epoch = pos 0;
  has_lock = false;
  resources = λ kind. [];
  uuid_to_id = λ kind. [];
  idempotency = [];
}

-- rawDatabase: the rows of each table; `none` where the snapshot omits it.
abbrev pub RawDatabase : Type 0
RawDatabase = Kind → Option (List Row)

-- The first pass at one row: its UUID stands for its id.
unfoldable pub index_row : Kind → Row → Snapshot → Outcome Snapshot
index_row kind row s = do
  id ← row_string (text "id") row
  key ← row_uuid (text "_uuid") row
  unless (is_there (find key (s.uuid_to_id kind))) malformed
  done (record s { uuid_to_id = with_kind kind ((key, id) ∷ s.uuid_to_id kind) s.uuid_to_id })

-- A loop over rows that hands the snapshot on.
abbrev pub over : (Row → Snapshot → Outcome Snapshot) → List Row → Snapshot → Outcome Snapshot
over step [] s = done s
over step (row ∷ rows) s = step row s >>= over step rows

-- A loop over tables; a table that is omitted is an error.
unfoldable pub over_tables :
    (Kind → Row → Snapshot → Outcome Snapshot)
    → RawDatabase
    → List Kind
    → Snapshot
    → Outcome Snapshot
over_tables step raw [] s = done s
over_tables step raw (kind ∷ ks) s = do
  rows ← or_failed (raw kind) malformed
  next ← over (step kind) rows s
  over_tables step raw ks next

abbrev pub store_lock_id : Text
store_lock_id = text "__pvn_store_lock__"

abbrev pub internal_id_prefix : Text
internal_id_prefix = text "__pvn_internal_"

abbrev pub internal_scope_key : Text
internal_scope_key = text "__pvn_internal_idem_scope__/"

-- The rest of a text after a prefix that it has.
unfoldable pub after_prefix : Text → Text → Option Text
after_prefix [] s = some s
after_prefix (c ∷ prefix) [] = none
after_prefix (c ∷ prefix) (d ∷ s) = if nat_beq c d then after_prefix prefix s else none

-- strconv.ParseBool
unfoldable pub parse_bool : Text → Option Bool
parse_bool s =
    if s == text "1"
      || s == text "t"
      || s == text "T"
      || s == text "TRUE"
      || s == text "true"
      || s == text "True"
    then some true
    else if s == text "0"
        || s == text "f"
        || s == text "F"
        || s == text "FALSE"
        || s == text "false"
        || s == text "False"
    then some false
    else none

-- The identity and the state that the lock's row must have.
unfoldable pub is_lock : Text → Text → Text → Text → Text → Text → Bool
is_lock action target_kind target_id key status state =
    action == text "internal-lock"
    && target_kind == text "internal"
    && target_id == store_lock_id
    && key == store_lock_id
    && status == text "succeeded"
    && state == text "ready"

-- The row of the store's lock.
unfoldable pub decode_lock : Row → Text → Snapshot → Outcome Snapshot
unfolding is_lock
decode_lock row id s = do
  unless (not (id == store_lock_id) || s.has_lock) malformed
  action ← row_string (text "action") row
  target_kind ← row_string (text "target_kind") row
  target_id ← row_string (text "target_id") row
  key ← row_string (text "idempotency_key") row
  status ← row_string (text "operation_status") row
  state ← row_string (text "state") row
  unless (not (is_lock action target_kind target_id key status state)) malformed
  epoch ← row_int64 (text "revision") row
  unless (ltb_ℤ epoch (pos 1)) malformed
  done (record s { epoch = epoch; has_lock = true })

-- JSON leaves the payload of an operation out; it stands in the external ids.
unfoldable pub with_payload : Text → Body → Body
with_payload payload (operation o) = operation (record o { payload = payload })
with_payload payload body = body

abbrev pub payload_of : Body → Text
payload_of (operation o) = o.payload
payload_of _ = []

unfoldable pub bad_metadata : Metadata → Bool
bad_metadata meta =
    is_empty meta.id
    || ltb_ℤ meta.revision (pos 1)
    || ltb_ℤ meta.applied_revision (pos 0)
    || ltb_ℤ meta.revision meta.applied_revision
    || nat_beq meta.created_at 0
    || nat_beq meta.updated_at 0

-- The result that a request with an idempotency key has had.
unfoldable pub decode_result : Wire → External → Outcome StoredResult
unfolding with_payload bad_metadata parse_bool
decode_result wire pairs = do
  fingerprint ← or_failed (wire.decode_digest (external (text "pvn:fingerprint") pairs)) malformed
  kind ← or_failed (target_kind_of (external (text "pvn:resource-kind") pairs)) malformed
  read ← or_failed (wire.unmarshal_resource kind (external (text "pvn:resource") pairs)) malformed
  let body = with_payload (external (text "pvn:compute-payload") pairs) read.body
  checked (validate_operation_payload wire.platform (payload_of body))
  unless (bad_metadata read.meta) malformed
  unless (not (is_stored_state read.meta.state)) malformed
  checked (validate wire.platform body)
  deleted ← or_failed (parse_bool (external (text "pvn:deleted") pairs)) malformed
  done (record {
    fingerprint_bytes = fingerprint;
    resource = record { meta = read.meta; body = body };
    deleted = deleted;
  })

unfoldable pub decode_idempotency : Wire → Row → External → Snapshot → Outcome Snapshot
unfolding after_prefix
decode_idempotency wire row pairs s = do
  stored_scope ← row_string (text "idempotency_key") row
  scope ← or_failed (after_prefix internal_scope_key stored_scope) malformed
  unless (is_empty scope) malformed
  result ← decode_result wire pairs
  unless (is_there (find scope s.idempotency)) malformed
  done (record s { idempotency = (scope, result) ∷ s.idempotency })

-- A row with an internal type.
unfoldable pub decode_own : Wire → Row → External → Text → Snapshot → Outcome (Option Snapshot)
unfolding decode_lock decode_idempotency
decode_own wire row pairs type_name s = do
  id ← row_string (text "id") row
  let locked = decode_lock row id s >>= λ next. done (some next)
  let remembered = decode_idempotency wire row pairs s >>= λ next. done (some next)
  if type_name == text "store-lock"
      then locked
      else if type_name == text "idempotency"
      then remembered
      else failed malformed

-- decodeInternalOperation: the next snapshot of a row that it handles, and `none` for other rows.
unfoldable pub decode_internal_operation : Wire → Row → Snapshot → Outcome (Option Snapshot)
unfolding decode_own
decode_internal_operation wire row s = do
  pairs ← row_string_map (text "external_ids") row
  let type_name = external (text "pvn:internal-type") pairs
  let own = decode_own wire row pairs type_name s
  if is_empty type_name then done none else own

-- An id that is reserved, or that the kind has already.
unfoldable pub is_taken_id : Snapshot → Kind → Text → Bool
unfolding after_prefix
is_taken_id s kind id =
    is_there (after_prefix internal_id_prefix id)
    || id == store_lock_id
    || is_there (find id (s.resources kind))

-- A row that is a resource.
unfoldable pub decode_stored : Wire → Kind → Row → Snapshot → Outcome Snapshot
unfolding is_taken_id
decode_stored wire kind row s = do
  resource ← decode_resource wire s kind row
  unless (is_taken_id s kind resource.meta.id) malformed
  key ← row_uuid (text "_uuid") row
  done (record s {
    resources =
        with_kind kind
          ((resource.meta.id, record { uuid = key; resource = resource }) ∷ s.resources kind)
          s.resources;
  })

-- The second pass at one row.
unfoldable pub decode_row : Wire → Kind → Row → Snapshot → Outcome Snapshot
unfolding decode_internal_operation decode_stored
decode_row wire kind row s =
    let resource = decode_stored wire kind row s in
    let internal = decode_internal_operation wire row s >>= λ handled. elim handled [
      | some next ↦ done next
      | none ↦ resource
    ] in
    if kind == Kind.operation then internal else resource

-- The passes of decodeDatabase: every UUID is known before a row is decoded.
unfoldable pub decode_rows : Wire → RawDatabase → Outcome Snapshot
unfolding index_row over_tables decode_row
decode_rows wire raw = do
  indexed ← over_tables index_row raw kinds new_snapshot
  over_tables (decode_row wire) raw kinds indexed
