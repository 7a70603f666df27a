-- ===== src/Reconcile/Audit.antt =====
-- ReconcilePeriodic and reconcileAll of internal/reconcile/reconcile.go: the pass over every
-- resource. The joined errors are a list.
use proxmox_ovn.Prelude.{
  ℕ, ◌-◌, nat_beq, not, ℤ, ltb_ℤ, Bool, true, false, ◌&&◌, List, [], ◌∷◌, ◌++◌, Option, none, some,
  any, pos, ◌==◌, if◌then◌else◌,
}
use proxmox_ovn.Text.{Text, text, text_eq}
use proxmox_ovn.Result.{Result, ok, err}
use proxmox_ovn.Model.Kind.{Kind, kind_eq}
use proxmox_ovn.Model.Resource.{Resource, Operation, Body, operation}
use proxmox_ovn.Store.Read.{ListOptions}
use proxmox_ovn.Store.Retention.{to_ℕ}
use proxmox_ovn.Reconcile.World.{Environment, Run, return, ◌>>=◌, call, clock}
use proxmox_ovn.Reconcile.Calls.{recover_method, snapshot_method, prune_method}
use proxmox_ovn.Reconcile.Work.{Failure, store_failed, not_positive}
use proxmox_ovn.Reconcile.Decisions.{operation_key, is_realized, is_succeeded, completed_since}
use proxmox_ovn.Reconcile.Controller.{Controller, reconcile}

-- dependencyOrder
abbrev pub dependency_order : List Kind
dependency_order =
    Kind.provider_network ∷ Kind.network ∷ Kind.provider_segment ∷ Kind.subnet ∷ Kind.security_group
    ∷ Kind.security_group_rule ∷ Kind.router ∷ Kind.router_interface ∷ Kind.port
    ∷ Kind.ip_allocation ∷ Kind.floating_ip ∷ Kind.node ∷ []

abbrev pub no_options : ListOptions
no_options = record {
  network_id = [];
  subnet_id = [];
  router_id = [];
  security_group_id = [];
  provider_network_id = [];
  node_id = [];
  vmid = pos 0;
  nic = [];
  recent_first = false;
  limit = pos 0;
}

-- snapshot[kind]
unfoldable pub listed : List (Kind × List Resource) → Kind → List Resource
listed [] kind = []
listed ((k, rs) ∷ found) kind = if k == kind then rs else listed found kind

-- The key of a successful reconcile since the cutoff.
unfoldable pub recent_key : ℕ → Operation → List Text
unfolding completed_since
recent_key cutoff o =
    if o.action == text "reconcile"
      && is_succeeded o.operation_status
      && completed_since o.completed_at cutoff
    then elim o.target_kind [
      | none ↦ []
      | some kind ↦ operation_key kind o.target_id o.target_revision ∷ []
    ]
    else []

abbrev recent_key_of : ℕ → Body → List Text
recent_key_of cutoff (operation o) = recent_key cutoff o
recent_key_of cutoff _ = []

-- recent
unfoldable pub recent_keys : ℕ → List Resource → List Text
unfolding recent_key
recent_keys cutoff [] = []
recent_keys cutoff (r ∷ rs) = recent_key_of cutoff r.body ++ recent_keys cutoff rs

-- A resource that this pass leaves alone.
unfoldable pub is_recent : ℕ → List Text → Kind → Resource → Bool
unfolding is_realized
is_recent freshness recent kind r =
    not (nat_beq freshness 0)
    && is_realized r.meta
    && any (λ key. key == operation_key kind r.meta.id r.meta.revision) recent

abbrev add_failure : Option Failure → List Failure → List Failure
add_failure none failures = failures
add_failure (some failure) failures = failure ∷ failures

abbrev pub result_failure {ℓ} : {A : Type ℓ} → Result A → List Failure
result_failure (ok _) = []
result_failure (err e) = store_failed e ∷ []

module _ {W : Type 0} (env : Environment W) (c : Controller) where
  -- The loop over the resources of one kind.
  unfoldable pub audit_kind : ℕ → ℕ → List Text → Kind → List Resource → Run W (List Failure)
  unfolding is_recent
  audit_kind freshness fresh_since recent kind [] = return []
  audit_kind freshness fresh_since recent kind (r ∷ rs) = do
    failure ←
        (if is_recent freshness recent kind r
          then return none
          else reconcile env c true fresh_since kind r.meta.id)
    failures ← audit_kind freshness fresh_since recent kind rs
    return (add_failure failure failures)

  -- The loop over the kinds.
  unfoldable pub audit_kinds :
      ℕ → ℕ → List Text → List (Kind × List Resource) → List Kind → Run W (List Failure)
  unfolding listed audit_kind
  audit_kinds freshness fresh_since recent found [] = return []
  audit_kinds freshness fresh_since recent found (kind ∷ kinds) = do
    failures ← audit_kind freshness fresh_since recent kind (listed found kind)
    more ← audit_kinds freshness fresh_since recent found kinds
    return (failures ++ more)

  abbrev pub audit_found : ℕ → ℕ → Result (List (Kind × List Resource)) → Run W (List Failure)
  audit_found freshness now (err e) = return (store_failed e ∷ [])
  audit_found freshness now (ok found) =
      audit_kinds freshness (if nat_beq freshness 0 then 0 else now - freshness)
        (if nat_beq freshness 0
          then []
          else recent_keys (now - freshness) (listed found Kind.operation))
        found dependency_order

  -- reconcileAll; freshness 0 audits everything
  unfoldable pub reconcile_all : ℕ → Run W (List Failure)
  unfolding listed recent_keys audit_kinds
  reconcile_all freshness = do
    now ← clock env
    recovered ← call env (recover_method (now - c.lease) now (pos 256))
    found ← call env (
        snapshot_method
          (if nat_beq freshness 0 then dependency_order else Kind.operation ∷ dependency_order)
          no_options)
    failures ← audit_found freshness now found
    pruned ← call env (prune_method (now - c.age) c.keep)
    return (result_failure recovered ++ (failures ++ result_failure pruned))

  -- ReconcilePeriodic
  unfoldable reconcile_periodic : ℤ → Run W (List Failure)
  unfolding reconcile_all
  reconcile_periodic freshness =
      let failures = reconcile_all (to_ℕ freshness) in
      if ltb_ℤ freshness (pos 1) then return (not_positive ∷ []) else failures
