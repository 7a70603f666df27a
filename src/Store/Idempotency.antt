-- ===== src/Store/Idempotency.antt =====
-- The state of the store, fingerprints, and replay and remembering of idempotency keys.
use proxmox_ovn.Prelude.{
  ℕ, Bool, List, [], ◌∷◌, ◌++◌, Option, none, some, ℤ, nat_beq, ◌==◌, if◌then◌else◌,
}
use proxmox_ovn.Text.{Text, text_eq, is_empty, decimal}
use proxmox_ovn.Platform.{Platform}
use proxmox_ovn.Result.{Result, ok, err, idempotency_conflict}
use proxmox_ovn.Model.Kind.{Kind, string}
use proxmox_ovn.Model.Resource.{Resource, Body, operation}
use proxmox_ovn.Store.Table.{Table}

-- A record always holds a resource: the nil case of the source never comes up.
pub record IdempotencyRecord : Type 0 where
  pub fingerprint : ℕ
  pub resource : Resource
  pub deleted : Bool

abbrev pub Records : Type 0
Records = List (Text × IdempotencyRecord)

-- Memory, without its lock; the clock and the generator of ids are arguments of the methods
pub record Store : Type 0 where
  pub resources : Table
  pub idempotency : Records

-- NewMemory
abbrev pub new_memory : Store
new_memory = record { resources = []; idempotency = [] }

unfoldable pub find_record : Records → Text → Option IdempotencyRecord
find_record [] scope = none
find_record ((key, r) ∷ records) scope = if key == scope then some r else find_record records scope

unfoldable pub put_record : Records → Text → IdempotencyRecord → Records
put_record [] scope r = (scope, r) ∷ []
put_record ((key, old) ∷ records) scope r =
    if key == scope then (scope, r) ∷ records else (key, old) ∷ put_record records scope r

unfoldable pub delete_record : Records → Text → Records
delete_record [] scope = []
delete_record ((key, r) ∷ records) scope =
    let rest = delete_record records scope in if key == scope then rest else (key, r) ∷ rest

payload_part : Body → Text
payload_part (operation o) = if is_empty o.payload then [] else 0 ∷ o.payload
payload_part _ = []

-- fingerprint: the payload of an operation stands behind a zero byte
unfoldable pub fingerprint : Platform → Resource → Text → ℕ
unfolding payload_part
fingerprint platform r qualifier =
    platform.sha256 (platform.marshal r ++ (qualifier ++ payload_part r.body))

-- The fingerprint of BeginDelete.
unfoldable pub delete_fingerprint : Platform → Text → ℤ → ℕ
delete_fingerprint platform id expected_revision =
    platform.sha256 (id ++ (b':' ∷ decimal expected_revision))

-- idempotencyScope: the empty text without a key
unfoldable pub idempotency_scope : Text → Kind → Text → Text → Text
idempotency_scope action kind id key =
    if is_empty key then [] else action ++ (b'/' ∷ (string kind ++ (b'/' ∷ (id ++ (b'/' ∷ key)))))

-- replayLocked: `none` where the key is new
unfoldable pub replay : Store → Text → ℕ → Result (Option Resource)
replay s scope print = if is_empty scope then ok none else elim (find_record s.idempotency scope) [
  | none ↦ ok none
  | some r ↦ if nat_beq r.fingerprint print then ok (some r.resource) else err idempotency_conflict
]

-- rememberLocked
unfoldable pub remember : Store → Text → ℕ → Resource → Bool → Store
remember s scope print r deleted = if is_empty scope then s else record s {
  idempotency =
      put_record s.idempotency scope
        (record { fingerprint = print; resource = r; deleted = deleted });
}
