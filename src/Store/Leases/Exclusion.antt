-- ===== src/Store/Leases/Exclusion.antt =====
-- Claims and renewals exclude each other: a lease has one owner until it has expired.
use proxmox_ovn.Prelude.{
  ℕ, ◌≤◌, ◌≡◌, refl, sym, ap, ◌∙◌, Bool, false, ◌&&◌, some, arith, ℤ, increment, int_eq, some_inj,
}
use proxmox_ovn.Text.{Text, text_eq}
use proxmox_ovn.Result.{ok}
use proxmox_ovn.Model.Kind.{Kind}
use proxmox_ovn.Model.Resource.{Resource, Operation}
use proxmox_ovn.Model.Validation.Policy.{is_running}
use proxmox_ovn.Store.Table.{Row, lookup, put, cast_found, as_row, operation?}
use proxmox_ovn.Store.Table.Laws.{lookup-put_self}
use proxmox_ovn.Store.Table.Found.{found_id}
use proxmox_ovn.Store.Idempotency.{Store}
use proxmox_ovn.Store.Lease.{
  claim_operation, renew_operation_lease, claimed_row, renewed_row, lease_is_live,
}
use proxmox_ovn.Store.Versions.{fresh_revision}
use proxmox_ovn.Store.Outcomes.Operations.{Claimed, claim_outcome, renew_outcome}

-- The row that a claim has written is the one that the next method finds.
claimed_found :
    (s : Store) (id : Text) (o : Row Operation) (owner : Text) (started : ℕ)
    → o.meta.id ≡ id
    → cast_found operation?
        (lookup (put s.resources (claimed_row o owner started)) Kind.operation id)
      ≡ as_row operation? (claimed_row o owner started)
unfolding claimed_row
claimed_found s id o owner started e =
    rw (← e, lookup-put_self s.resources (claimed_row o owner started)) refl

renewed_found :
    (s : Store) (id : Text) (o : Row Operation) (now : ℕ)
    → o.meta.id ≡ id
    → cast_found operation? (lookup (put s.resources (renewed_row o now)) Kind.operation id)
      ≡ as_row operation? (renewed_row o now)
unfolding renewed_row
renewed_found s id o now e = rw (← e, lookup-put_self s.resources (renewed_row o now)) refl

-- What a later method finds after a claim.
found-Claimed :
    (id : Text) (expected : ℤ) (action owner : Text) (started cutoff : ℕ) (s : Store)
    {c : Resource × Store} (o : Claimed id expected action owner started cutoff s c)
    (row : Row Operation)
    → cast_found operation? (lookup c.1.resources Kind.operation id) ≡ some row
    → as_row operation? (claimed_row o.stored owner started) ≡ some row
found-Claimed id expected action owner started cutoff s o row h =
    sym (
      claimed_found s id o.stored owner started
        (found_id operation? s.resources Kind.operation id o.stored o.found_stored))
    ∙ ap (λ (x : Store). cast_found operation? (lookup x.resources Kind.operation id)) (sym o.after)
    ∙ h

claimed_live :
    (o row : Row Operation) (owner : Text) (started cutoff : ℕ)
    → as_row operation? (claimed_row o owner started) ≡ some row
    → (is_running row.value.operation_status && lease_is_live row cutoff) ≡ false
    → started ≤ cutoff
unfolding claimed_row lease_is_live
claimed_live o row owner started cutoff h e =
    let same = some_inj h in ground (arith, rw (← same) at e)

-- Two claims of one operation, one right after the other, both succeed only if the second
-- takes leases up to the first one's start for expired.
pub claim_operation-claim_operation :
    (done again : Bool) (id : Text) (expected expected' : ℤ) (action action' owner owner' : Text)
    (started started' cutoff cutoff' : ℕ) (s : Store) {c d : Resource × Store}
    → claim_operation done id expected action owner started cutoff s ≡ ok c
    → claim_operation again id expected' action' owner' started' cutoff' c.1 ≡ ok d
    → (started ≤ cutoff')
claim_operation-claim_operation done again id expected expected' action action' owner owner' started
      started' cutoff cutoff' s {c} h h' =
    let first = claim_outcome done id expected action owner started cutoff s h in
    let second = claim_outcome again id expected' action' owner' started' cutoff' c.1 h' in
    claimed_live first.stored second.stored owner started cutoff'
      (found-Claimed id expected action owner started cutoff s first second.stored
        second.found_stored)
      second.expired

-- A renewal after a claim succeeds only for the owner that has claimed, and at the revision
-- that the claim has made.
pub renew_operation_lease-claim_operation :
    (done again : Bool) (id : Text) (expected expected' : ℤ) (action owner owner' : Text)
    (started cutoff renewed : ℕ) (s : Store) {c d : Resource × Store}
    → claim_operation done id expected action owner started cutoff s ≡ ok c
    → renew_operation_lease again id expected' owner' renewed c.1 ≡ ok d
    → (owner' ≡ owner) × (expected' ≡ increment expected)
unfolding claimed_row
renew_operation_lease-claim_operation done again id expected expected' action owner owner' started
      cutoff renewed s {c} h h' =
    let first = claim_outcome done id expected action owner started cutoff s h in
    let second = renew_outcome again id expected' owner' renewed c.1 h' in
    let same = some_inj (
      found-Claimed id expected action owner started cutoff s first second.stored
        second.found_stored) in
    (
      sym second.owned ∙ ap (λ (r : Row Operation). r.value.lease_owner) (sym same),
      sym (fresh_revision expected' second.stored.meta.revision second.fresh)
          ∙ ap (λ (r : Row Operation). r.meta.revision) (sym same)
          ∙ ap increment (fresh_revision expected first.stored.meta.revision first.fresh),
    )
