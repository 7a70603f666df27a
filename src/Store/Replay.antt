-- ===== src/Store/Replay.antt =====
-- Idempotency keys: what a successful request has remembered, and how it answers the next one.
pub mod Requests
use proxmox_ovn.Prelude.{
  ℕ, ◌≡◌, refl, sym, ap, subst, ◌∙◌, ◌⊎◌, inl, inr, Bool, true, false, List, [], ◌∷◌, ◌++◌, Option,
  none, some, arith, ℤ, nat_beq, nat_beq_iff, Option-cases, Bool-cases, if◌then◌else◌, ◌==◌,
  ==_refl,
}
use proxmox_ovn.Text.{Text, text, text_eq, is_empty, decimal}
use proxmox_ovn.Result.{Result, ok, err, Error, idempotency_conflict}
use proxmox_ovn.Model.Kind.{Kind, string}
use proxmox_ovn.Model.Resource.{Resource}
use proxmox_ovn.Store.Idempotency.{
  Store, Records, IdempotencyRecord, find_record, put_record, idempotency_scope, replay, remember,
}

find-put :
    (rs : Records) (scope : Text) (r : IdempotencyRecord)
    → find_record (put_record rs scope r) scope ≡ some r
unfolding find_record put_record
find-put [] scope r = ground (arith, ==_refl scope)
find-put ((key, old) ∷ rs) scope r = ground (arith, ==_refl scope, find-put rs scope r)

append_nonempty : (a b : Text) → is_empty b ≡ false → is_empty (a ++ b) ≡ false
append_nonempty [] b h = h
append_nonempty (c ∷ a) b h = refl

-- A key makes a scope.
pub scope_nonempty :
    (action : Text) (kind : Kind) (id key : Text)
    → is_empty key ≡ false
    → is_empty (idempotency_scope action kind id key) ≡ false
unfolding idempotency_scope
scope_nonempty action kind id key h = rw h (append_nonempty action _ refl)

pub replay-remember :
    (s : Store) (scope : Text) (print : ℕ) (r : Resource) (deleted : Bool)
    → is_empty scope ≡ false
    → replay (remember s scope print r deleted) scope print ≡ ok (some r)
unfolding replay remember
replay-remember s scope print r deleted h = ground (
  arith,
  find-put s.idempotency scope (record { fingerprint = print; resource = r; deleted = deleted }),
  (nat_beq_iff print print).1 refl,
)

-- A key that is remembered for one fingerprint refuses every other one.
pub replay_other :
    (s : Store) (scope : Text) (print other : ℕ) (r : Resource)
    → replay s scope print ≡ ok (some r)
    → nat_beq print other ≡ false
    → replay s scope other ≡ err idempotency_conflict
unfolding replay
replay_other s scope print other r h e = elim (Option-cases (find_record s.idempotency scope)) [
  | inl none_there ↦ absurd (ground arith)
  | inr (found, there) ↦ ground arith
]
