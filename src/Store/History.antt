-- ===== src/Store/History.antt =====
-- The histories of a store: what any sequence of successful method calls makes of it. A method
-- that fails hands no store back, so the caller goes on with the one it had.
use proxmox_ovn.Prelude.{ℕ, ◌≡◌, Bool, Option, ℤ}
use proxmox_ovn.Text.{Text}
use proxmox_ovn.Platform.{Platform}
use proxmox_ovn.Result.{ok}
use proxmox_ovn.Model.Kind.{Kind}
use proxmox_ovn.Model.Resource.{Resource}
use proxmox_ovn.Store.Idempotency.{Store}
use proxmox_ovn.Store.Create.{Written, create}
use proxmox_ovn.Store.Update.{update}
use proxmox_ovn.Store.Delete.{begin_delete, purge}
use proxmox_ovn.Store.Lease.{claim_operation, renew_operation_lease, fence_reconciles}
use proxmox_ovn.Store.Retention.{prune_operations, recover_expired_operations}
use proxmox_ovn.Store.Reconciled.{mark_reconciled, observe_node_heartbeat}

pub data Step (p : Platform) (s : Store) : Store → Type 0 where
  creates :
      {w : Written} (now : ℕ) (id : Text) (r : Resource) (key : Text) (done : Bool)
      → create p done now id r key s ≡ ok w
      → Step p s w.store
  updates :
      {w : Written} (now : ℕ) (r : Resource) (expected : ℤ) (key : Text) (done : Bool)
      → update p done now r expected key s ≡ ok w
      → Step p s w.store
  begins_delete :
      {w : Written} (now : ℕ) (kind : Kind) (id : Text) (expected : ℤ) (key : Text) (done : Bool)
      → begin_delete p done now kind id expected key s ≡ ok w
      → Step p s w.store
  purges :
      {s' : Store} (kind : Kind) (id : Text) (revision : ℤ) (done : Bool)
      → purge done kind id revision s ≡ ok s'
      → Step p s s'
  claims :
      {c : Resource × Store} (id : Text) (expected : ℤ) (action owner : Text) (started cutoff : ℕ)
      (done : Bool)
      → claim_operation done id expected action owner started cutoff s ≡ ok c
      → Step p s c.1
  renews :
      {c : Resource × Store} (id : Text) (expected : ℤ) (owner : Text) (renewed : ℕ) (done : Bool)
      → renew_operation_lease done id expected owner renewed s ≡ ok c
      → Step p s c.1
  fences :
      {c : Bool × Bool × Store} (kind : Kind) (id : Text) (cutoff recovered : ℕ) (done : Bool)
      → fence_reconciles done kind id cutoff recovered s ≡ ok c
      → Step p s c.2
  prunes :
      {c : ℕ × Store} (before : ℕ) (keep : ℤ) (done : Bool)
      → prune_operations done before keep s ≡ ok c
      → Step p s c.1
  recovers :
      {c : ℕ × Store} (cutoff recovered : ℕ) (limit : ℤ) (done : Bool)
      → recover_expired_operations done cutoff recovered limit s ≡ ok c
      → Step p s c.1
  reconciles :
      {c : Resource × Store} (now : ℕ) (kind : Kind) (id : Text) (revision : ℤ)
      (error : Option Text) (done : Bool)
      → mark_reconciled done now kind id revision error s ≡ ok c
      → Step p s c.1
  observes :
      {c : Resource × Store} (id : Text) (expected : ℤ) (seen : ℕ) (done : Bool)
      → observe_node_heartbeat done id expected seen s ≡ ok c
      → Step p s c.1

pub data Reach (p : Platform) (s : Store) : Store → Type 0 where
  here : Reach p s s
  next : {t u : Store} → Reach p s t → Step p t u → Reach p s u

-- What every step keeps holds after any history.
pub Reach-keeps :
    (P : Store → Type 0) (p : Platform)
    → ((s t : Store) → Step p s t → P s → P t)
    → (s t : Store) → Reach p s t
    → P s
    → P t
Reach-keeps P p keep s t here h = h
Reach-keeps P p keep s t (next {t = u} r st) h = keep u t st (Reach-keeps P p keep s u r h)
