-- ===== src/Store/Validity.antt =====
-- Every row of the store passes the validation of its kind, whatever the methods have done to it.
use proxmox_ovn.Prelude.{ℕ, ◌≡◌, refl, ◌∙◌, Bool, true, [], ◌∷◌, arith}
use proxmox_ovn.Text.{Text}
use proxmox_ovn.Platform.{Platform}
use proxmox_ovn.Result.{ok}
use proxmox_ovn.Model.Resource.{Resource, Body, Operation, Node, port, floating_ip, node, operation}
use proxmox_ovn.Model.Patterns.{is_name}
use proxmox_ovn.Model.Defaults.{mark_pending, mark_floating_reconciled}
use proxmox_ovn.Model.Validation.{validate_name}
use proxmox_ovn.Model.Validation.Address.{validate_floating_ip, known_floating_status}
use proxmox_ovn.Model.Validation.Policy.{
  validate_operation, validate_port, validate_node, known_operation_status,
}
use proxmox_ovn.Model.Validation.Whole.{validate}
use proxmox_ovn.Store.Table.{Table, Row}
use proxmox_ovn.Store.Idempotency.{Store, new_memory}
use proxmox_ovn.Store.Create.{check_create, prepare_create, stamp_create, name_port}
use proxmox_ovn.Store.Update.{check_update, prepare_update}
use proxmox_ovn.Store.Lease.{valid_lease_owner, claimed_row, failed_row}
use proxmox_ovn.Store.Reconciled.{observe_row}
use proxmox_ovn.Store.History.{Reach}
use proxmox_ovn.Store.Everywhere.{Everywhere}
use proxmox_ovn.Store.Everywhere.Histories.{Reach-Everywhere}

abbrev pub IsValid : Platform → Body → Type 0
IsValid p b = validate p b ≡ ok tt

-- A lease owner is a name: claims and operations draw on one pattern.
pub valid_lease_owner-is_name :
    (owner : Text) → valid_lease_owner owner ≡ true → is_name owner ≡ true
unfolding valid_lease_owner is_name
valid_lease_owner-is_name [] h = cc
valid_lease_owner-is_name (c ∷ s) h = ground arith

validate-name_port :
    (p : Platform) (id : Text) (b : Body) → validate p (name_port id b) ≡ validate p b
unfolding validate name_port validate_port
validate-name_port p id (port v) = refl
validate-name_port p id _ = refl

created-IsValid :
    (p : Platform) (s : Store) (now : ℕ) (copy : Resource)
    → check_create p s copy ≡ ok tt
    → IsValid p (stamp_create now copy).body
unfolding check_create stamp_create
created-IsValid p s now copy h = validate-name_port p copy.meta.id copy.body ∙ ground arith

updated-IsValid :
    (p : Platform) (t : Table) (current copy : Resource)
    → check_update p t current copy ≡ ok tt
    → IsValid p copy.body
unfolding check_update
updated-IsValid p t current copy h = ground arith

pending-IsValid : (p : Platform) (b : Body) → IsValid p b → IsValid p (mark_pending b)
unfolding validate mark_pending validate_floating_ip known_floating_status
pending-IsValid p (floating_ip f) h = ground arith
pending-IsValid p _ h = h

floating-IsValid :
    (p : Platform) (error : Bool) (b : Body)
    → IsValid p b
    → IsValid p (mark_floating_reconciled error b)
unfolding validate mark_floating_reconciled validate_floating_ip known_floating_status
floating-IsValid p error (floating_ip f) h = ground arith
floating-IsValid p error _ h = h

claimed-IsValid :
    (p : Platform) (o : Row Operation) (owner : Text) (started : ℕ)
    → valid_lease_owner owner ≡ true
    → IsValid p (operation o.value)
    → IsValid p (claimed_row o owner started).body
unfolding validate claimed_row validate_operation known_operation_status validate_name
claimed-IsValid p o owner started valid h = ground (arith, valid_lease_owner-is_name owner valid)

failed-IsValid :
    (p : Platform) (o : Row Operation) (error : Text) (now : ℕ)
    → IsValid p (operation o.value)
    → IsValid p (failed_row o error now).body
unfolding validate failed_row validate_operation known_operation_status validate_name
failed-IsValid p o error now h = ground arith

observed-IsValid :
    (p : Platform) (n : Row Node) (seen : ℕ)
    → IsValid p (node n.value)
    → IsValid p (observe_row n seen).body
unfolding validate observe_row validate_node
observed-IsValid p n seen h = ground arith

-- In any store that a history of method calls makes of an empty one, every row passes the
-- validation of its kind.
pub Reach-IsValid :
    (p : Platform) (s : Store) → Reach p new_memory s → Everywhere (IsValid p) s.resources
Reach-IsValid p s =
    Reach-Everywhere
      (record {
        created = λ s now key id r _ h. created-IsValid p s now (prepare_create p key id r) h;
        updated = λ t current r h. updated-IsValid p t current (prepare_update p r) h;
        pending = pending-IsValid p;
        claimed = claimed-IsValid p;
        failed = failed-IsValid p;
        floating = floating-IsValid p;
        observed = observed-IsValid p;
      })
      s
