-- ===== src/Reconcile/Keeps.antt =====
-- The rule for invariants of the store and of the state behind the renderer, along any run of the
-- controller of internal/reconcile/reconcile.go.
use proxmox_ovn.Prelude.{
  ℕ, zero, suc, ◌≡◌, refl, Bool, true, false, Option, none, some, if-keeps, if◌then◌else◌,
}
use proxmox_ovn.Result.{Result, ok, err}
use proxmox_ovn.Model.Resource.{Resource, Operation}
use proxmox_ovn.Store.Table.{Row}
use proxmox_ovn.Store.Idempotency.{Store}
use proxmox_ovn.Store.Lease.{renew_operation_lease}
use proxmox_ovn.Store.History.{Step, renews}
use proxmox_ovn.Reconcile.World.{
  Heartbeat, LeaseLoss, after_failure, World, Environment, Run, return, ◌>>=◌, Method, after_call,
  after_renewal, beat, beat_times, pulse, turn, clock, owner, fresh_id, parent_done,
  start_heartbeat, ended, call, detached_call, render_call, delete_call, stop_heartbeat,
}
use proxmox_ovn.Reconcile.Work.{is_deleting}

-- What the invariant has to be kept by: the other managers, each method of the store, each
-- deletion behind the renderer, and each rendering of a resource that is no tombstone.
pub record IsInvariant {W : Type 0} (env : Environment W) (I : Store → W → Type 0) : Type 0 where
  pub kept_by_others :
      (n : ℕ) (s : Store) (b : W) → I s b → I (env.others n s b).0 (env.others n s b).1
  pub kept_by_step : (s t : Store) (b : W) → Step env.platform s t → I s b → I t b
  pub kept_by_render :
      (done : Bool) (r : Resource) (s : Store) (b : W)
      → is_deleting r ≡ false
      → I s b
      → I s (env.render done r b).1
  pub kept_by_delete :
      (done : Bool) (r : Resource) (s : Store) (b : W)
      → I s b
      → I s (env.delete_rendered done r b).1

after_failure_kept :
    {A : Type 0} (P : A → Type 0) (o : Option LeaseLoss) (x y : A)
    → P x
    → P y
    → P (after_failure o x y)
after_failure_kept P (some _) x y hx hy = hx
after_failure_kept P none x y hx hy = hy

module _ {W : Type 0} (env : Environment W) (I : Store → W → Type 0) (inv : IsInvariant env I) where
  -- The run leaves the invariant in place.
  pub record Keeps {A : Type 0} (m : Run W A) : Type 0 where
    pub at : (w : World W) → I w.store w.backend → I (m w).1.store (m w).1.backend

  -- The method does nothing to the store but what a step does.
  abbrev pub IsMethod : {A : Type 0} → Method A → Type 0
  IsMethod {A} method =
      (now : ℕ) (done : Bool) (s : Store) (a : A) (t : Store) (b : W)
      → method now done s ≡ ok (a, t)
      → I s b
      → I t b

  beat_kept : (now : ℕ) (h : Heartbeat) (s : Store) (b : W) → I s b → I (beat now h s).1 b
  unfolding beat
  beat_kept now h s b i =
      go
        (renew_operation_lease false h.operation.meta.id h.operation.meta.revision
          h.operation.value.lease_owner now s)
        refl
    where
      go :
          (result : Result (Resource × Store))
          → renew_operation_lease false h.operation.meta.id h.operation.meta.revision
              h.operation.value.lease_owner now s
            ≡ result
          → I (after_renewal h s result).1 b
      go (err e) _ = i
      go (ok (r, t)) e =
          inv.kept_by_step s t b
            (renews h.operation.meta.id h.operation.meta.revision h.operation.value.lease_owner now
              false e)
            i

  beat_times_kept :
      (now ticks : ℕ) (h : Heartbeat) (s : Store) (b : W) → I s b → I (beat_times now ticks h s).1 b
  unfolding beat_times
  beat_times_kept now zero h s b i = i
  beat_times_kept now (suc ticks) h s b i =
      after_failure_kept (λ (r : Heartbeat × Store). I r.1 b) h.failure _ _ i
        (beat_times_kept now ticks (beat now h s).0 (beat now h s).1 b (beat_kept now h s b i))

  pulse_kept :
      (done : Bool) (now ticks : ℕ) (h : Option Heartbeat) (s : Store) (b : W)
      → I s b
      → I (pulse done now ticks h s).1 b
  unfolding pulse
  pulse_kept done now ticks none s b i = i
  pulse_kept done now ticks (some h) s b i =
      after_failure_kept (λ (r : Option Heartbeat × Store). I r.1 b) h.failure _ _ i
        (if-keeps (λ (r : Option Heartbeat × Store). I r.1 b) done _ _ i
          (beat_times_kept now ticks h s b i))

  turn_kept : (w : World W) → I w.store w.backend → I (turn env w).store (turn env w).backend
  unfolding turn
  turn_kept w i =
      pulse_kept (env.done w.calls) (env.now w.calls) (env.beats w.calls) w.heartbeat _ _
        (inv.kept_by_others w.calls w.store w.backend i)

  answered_kept :
      {A : Type 0} (method : Method A) (now : ℕ) (done : Bool) (w : World W)
      → IsMethod method
      → I w.store w.backend
      → (result : Result (A × Store)) → method now done w.store ≡ result
      → I (after_call w result).1.store (after_call w result).1.backend
  answered_kept method now done w m i (err e) _ = i
  answered_kept method now done w m i (ok (a, t)) e = m now done w.store a t w.backend e i

  pub call-Keeps : {A : Type 0} (method : Method A) → IsMethod method → Keeps (call env method)
  unfolding call
  call-Keeps method m = record {
    at = λ w i.
        answered_kept method (env.now w.calls) (ended env w.calls (turn env w)) (turn env w) m
          (turn_kept w i) _ refl;
  }

  pub detached_call-Keeps :
      {A : Type 0} (method : Method A) → IsMethod method → Keeps (detached_call env method)
  unfolding detached_call
  detached_call-Keeps method m = record {
    at = λ w i.
        answered_kept method (env.now w.calls) (env.completion_done w.calls) (turn env w) m
          (turn_kept w i) _ refl;
  }

  pub render_call-Keeps : (r : Resource) → is_deleting r ≡ false → Keeps (render_call env r)
  unfolding render_call
  render_call-Keeps r live = record {
    at = λ w i.
        inv.kept_by_render (ended env w.calls (turn env w)) r (turn env w).store
          (turn env w).backend live (turn_kept w i);
  }

  pub delete_call-Keeps : (r : Resource) → Keeps (delete_call env r)
  unfolding delete_call
  delete_call-Keeps r = record {
    at = λ w i.
        inv.kept_by_delete (ended env w.calls (turn env w)) r (turn env w).store
          (turn env w).backend (turn_kept w i);
  }

  pub stop_heartbeat-Keeps : (o : Row Operation) → Keeps (stop_heartbeat env o)
  unfolding stop_heartbeat
  stop_heartbeat-Keeps o = record { at = turn_kept }

  pub bind-Keeps :
      {A B : Type 0} (m : Run W A) (k : A → Run W B)
      → Keeps m
      → ((a : A) → Keeps (k a))
      → Keeps (m >>= k)
  unfolding ◌>>=◌
  bind-Keeps m k hm hk = record { at = λ w i. (hk (m w).0).at (m w).1 (hm.at w i) }

  pub if-Keeps :
      {A : Type 0} (b : Bool) (x y : Run W A)
      → (b ≡ true → Keeps x)
      → (b ≡ false → Keeps y)
      → Keeps (if b then x else y)
  if-Keeps true x y hx hy = hx refl
  if-Keeps false x y hx hy = hy refl

  pub return-Keeps : {A : Type 0} (a : A) → Keeps (return a)
  return-Keeps a = record { at = λ w i. i }

  pub clock-Keeps : Keeps (clock env)
  clock-Keeps = record { at = λ w i. i }

  pub owner-Keeps : Keeps (owner env)
  owner-Keeps = record { at = λ w i. i }

  pub fresh_id-Keeps : Keeps (fresh_id env)
  fresh_id-Keeps = record { at = λ w i. i }

  pub parent_done-Keeps : Keeps (parent_done env)
  parent_done-Keeps = record { at = λ w i. i }

  pub start_heartbeat-Keeps : (o : Row Operation) → Keeps (start_heartbeat o)
  start_heartbeat-Keeps o = record { at = λ w i. i }
