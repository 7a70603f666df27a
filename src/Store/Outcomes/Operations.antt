-- ===== src/Store/Outcomes/Operations.antt =====
-- What the methods on operations, MarkReconciled and ObserveNodeHeartbeat have done when they
-- succeed.
use proxmox_ovn.Prelude.{
  ℕ, ◌≡◌, inl, inr, Bool, true, false, ◌&&◌, Option, some, arith, ℤ, ltb_ℤ, Option-cases, ==→≡,
  ◌||◌, nat_beq, int_eq, if◌then◌else◌,
}
use proxmox_ovn.Text.{Text, text_eq, is_empty}
use proxmox_ovn.Result.{
  ok, cancelled, conflict, not_found, bind-ok, then-ok, refuse, guard, or_fail, or_fail-ok,
  guard-ok,
}
use proxmox_ovn.Model.Kind.{Kind}
use proxmox_ovn.Model.Resource.{Resource, Operation, Node}
use proxmox_ovn.Model.Validation.Policy.{lease_protected_action, is_running}
use proxmox_ovn.Store.Table.{Table, Row, lookup, put, cast_found, operation?, node?}
use proxmox_ovn.Store.Idempotency.{Store}
use proxmox_ovn.Store.Update.{stale}
use proxmox_ovn.Store.Lease.{
  valid_lease_owner, lease_is_live, lookup_target, target_claimable, claimed_row, check_claim,
  claim_operation, renewed_row, check_renew, renew_operation_lease,
}
use proxmox_ovn.Store.Reconciled.{
  rendered, mark_reconciled, observe_row, observe_node_heartbeat, seen_since,
}

pub record Claimed (id : Text) (expected : ℤ) (action owner : Text) (started cutoff : ℕ) (s : Store)
    (c : Resource × Store) : Type 0 where
  pub owner_valid : valid_lease_owner owner ≡ true
  pub stored : Row Operation
  pub found_stored : cast_found operation? (lookup s.resources Kind.operation id) ≡ some stored
  pub fresh : stale expected stored.meta.revision ≡ false
  pub its_action : stored.value.action ≡ action
  pub expired : (is_running stored.value.operation_status && lease_is_live stored cutoff) ≡ false
  pub target : Resource
  pub found_target : lookup_target s.resources stored.value ≡ some target
  pub claimable : target_claimable stored.value target.meta true ≡ true
  pub written : c.0 ≡ claimed_row stored owner started
  pub after : c.1 ≡ record s { resources = put s.resources (claimed_row stored owner started) }

-- The checks of a claim.
record Claimable (t : Table) (expected : ℤ) (action : Text) (cutoff : ℕ) (stored : Row Operation)
    : Type 0 where
  fresh : stale expected stored.meta.revision ≡ false
  its_action : stored.value.action ≡ action
  expired : (is_running stored.value.operation_status && lease_is_live stored cutoff) ≡ false
  target : Resource
  found_target : lookup_target t stored.value ≡ some target
  claimable : target_claimable stored.value target.meta true ≡ true

claim_checks :
    (t : Table) (expected : ℤ) (action : Text) (cutoff : ℕ) (stored : Row Operation)
    → check_claim t expected action cutoff stored ≡ ok tt
    → Claimable t expected action cutoff stored
unfolding check_claim
claim_checks t expected action cutoff stored h =
    elim (Option-cases (lookup_target t stored.value)) [
      | inl e ↦ absurd (ground arith)
      | inr (target, e) ↦ record {
        fresh = ground arith;
        its_action = ==→≡ stored.value.action action (ground arith);
        expired = ground arith;
        target = target;
        found_target = e;
        claimable = ground arith;
      }
    ]

-- A claim has found its operation at the expected revision, free of a live lease, with a target
-- that can be claimed, and has written the claimed row.
pub claim_outcome :
    (done : Bool) (id : Text) (expected : ℤ) (action owner : Text) (started cutoff : ℕ) (s : Store)
    {c : Resource × Store}
    → claim_operation done id expected action owner started cutoff s ≡ ok c
    → Claimed id expected action owner started cutoff s c
unfolding claim_operation
claim_outcome done id expected action owner started cutoff s h =
    let (_, rest) = then-ok (refuse done cancelled) _ h in
    let (valid, rest') = then-ok (guard (valid_lease_owner owner) conflict) _ rest in
    let (stored, found_it, checked) =
      bind-ok (or_fail (cast_found operation? (lookup s.resources Kind.operation id)) not_found) _
        rest' in
    let (_, write) = then-ok (check_claim s.resources expected action cutoff stored) _ checked in
    let claim =
      claim_checks s.resources expected action cutoff stored
        (then-ok (check_claim s.resources expected action cutoff stored) _ checked).0 in
    record {
      owner_valid = guard-ok _ conflict valid;
      stored = stored;
      found_stored = or_fail-ok _ not_found found_it;
      fresh = claim.fresh;
      its_action = claim.its_action;
      expired = claim.expired;
      target = claim.target;
      found_target = claim.found_target;
      claimable = claim.claimable;
      written = ground arith;
      after = ground arith;
    }

pub record Renewed (id : Text) (expected : ℤ) (owner : Text) (renewed : ℕ) (s : Store)
    (c : Resource × Store) : Type 0 where
  pub stored : Row Operation
  pub found_stored : cast_found operation? (lookup s.resources Kind.operation id) ≡ some stored
  pub fresh : stale expected stored.meta.revision ≡ false
  pub protected : lease_protected_action stored.value.action ≡ true
  pub running : is_running stored.value.operation_status ≡ true
  pub named : is_empty owner ≡ false
  pub owned : stored.value.lease_owner ≡ owner
  pub written : c.0 ≡ renewed_row stored renewed
  pub after : c.1 ≡ record s { resources = put s.resources (renewed_row stored renewed) }

renew_checks :
    (t : Table) (expected : ℤ) (owner : Text) (stored : Row Operation)
    → check_renew t expected owner stored ≡ ok tt
    → (stale expected stored.meta.revision ≡ false)
      × (lease_protected_action stored.value.action ≡ true)
      × (is_running stored.value.operation_status ≡ true)
      × (is_empty owner ≡ false)
      × (stored.value.lease_owner ≡ owner)
unfolding check_renew
renew_checks t expected owner stored h = (
  ground arith,
  ground arith,
  ground arith,
  ground arith,
  ==→≡ stored.value.lease_owner owner (ground arith),
)

-- A renewal has found a running operation of its owner at the expected revision.
pub renew_outcome :
    (done : Bool) (id : Text) (expected : ℤ) (owner : Text) (renewed : ℕ) (s : Store)
    {c : Resource × Store}
    → renew_operation_lease done id expected owner renewed s ≡ ok c
    → Renewed id expected owner renewed s c
unfolding renew_operation_lease
renew_outcome done id expected owner renewed s h =
    let (_, rest) = then-ok (refuse done cancelled) _ h in
    let (stored, found_it, checked) =
      bind-ok (or_fail (cast_found operation? (lookup s.resources Kind.operation id)) not_found) _
        rest in
    let (passed, write) = then-ok (check_renew s.resources expected owner stored) _ checked in
    let (fresh, protected, running, named, owned) =
      renew_checks s.resources expected owner stored passed in
    record {
      stored = stored;
      found_stored = or_fail-ok _ not_found found_it;
      fresh = fresh;
      protected = protected;
      running = running;
      named = named;
      owned = owned;
      written = ground arith;
      after = ground arith;
    }

pub record Rendered (now : ℕ) (kind : Kind) (id : Text) (revision : ℤ) (error : Option Text)
    (s : Store) (c : Resource × Store) : Type 0 where
  pub stored : Resource
  pub found_stored : lookup s.resources kind id ≡ some stored
  pub known : ltb_ℤ stored.meta.revision revision ≡ false
  pub written : c.0 ≡ rendered revision error now stored
  pub after : c.1 ≡ record s { resources = put s.resources (rendered revision error now stored) }

pub mark_outcome :
    (done : Bool) (now : ℕ) (kind : Kind) (id : Text) (revision : ℤ) (error : Option Text)
    (s : Store) {c : Resource × Store}
    → mark_reconciled done now kind id revision error s ≡ ok c
    → Rendered now kind id revision error s c
unfolding mark_reconciled
mark_outcome done now kind id revision error s h =
    let (_, rest) = then-ok (refuse done cancelled) _ h in
    let (stored, found_it, _) = bind-ok (or_fail (lookup s.resources kind id) not_found) _ rest in
    record {
      stored = stored;
      found_stored = or_fail-ok _ not_found found_it;
      known = ground arith;
      written = ground arith;
      after = ground arith;
    }

pub record Observed (id : Text) (expected : ℤ) (seen : ℕ) (s : Store) (c : Resource × Store)
    : Type 0 where
  pub stored : Row Node
  pub found_stored : cast_found node? (lookup s.resources Kind.node id) ≡ some stored
  pub fresh : stale expected stored.meta.revision ≡ false
  pub written : c.0 ≡ observe_row stored seen
  pub after : c.1 ≡ (
      if seen_since stored.value.last_seen_at seen
      then s
      else record s { resources = put s.resources (observe_row stored seen) })

pub observe_outcome :
    (done : Bool) (id : Text) (expected : ℤ) (seen : ℕ) (s : Store) {c : Resource × Store}
    → observe_node_heartbeat done id expected seen s ≡ ok c
    → Observed id expected seen s c
unfolding observe_node_heartbeat
observe_outcome done id expected seen s h =
    let (_, rest) = then-ok (refuse done cancelled) _ h in
    let (_, rest') = then-ok (refuse (is_empty id || nat_beq seen 0) conflict) _ rest in
    let (stored, found_it, _) =
      bind-ok (or_fail (cast_found node? (lookup s.resources Kind.node id)) not_found) _ rest' in
    record {
      stored = stored;
      found_stored = or_fail-ok _ not_found found_it;
      fresh = ground arith;
      written = ground arith;
      after = ground arith;
    }
