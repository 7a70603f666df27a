-- ===== src/Reconcile/World.antt =====
-- The world of one run of the controller (internal/reconcile/reconcile.go): the store, the state
-- behind the renderer, and the heartbeat of the claimed operation, as the run meets them call by
-- call. Before each call the other managers and the heartbeat's goroutine have had their turn.
use proxmox_ovn.Prelude.{ℕ, zero, suc, Bool, true, false, ◌||◌, Option, none, some, if◌then◌else◌}
use proxmox_ovn.Text.{Text}
use proxmox_ovn.Platform.{Platform}
use proxmox_ovn.Result.{Result, Error, ok, err}
use proxmox_ovn.Model.Resource.{Resource, Operation}
use proxmox_ovn.Store.Table.{Row, as_row, operation?}
use proxmox_ovn.Store.Idempotency.{Store}
use proxmox_ovn.Store.Lease.{renew_operation_lease}

-- heartbeat.err with parentStopped: a renewal has failed, or the caller's context has ended.
pub data LeaseLoss : Type 0 where
  renewal_failed : Error → LeaseLoss
  parent_stopped : LeaseLoss

-- operationHeartbeat
pub record Heartbeat : Type 0 where
  pub operation : Row Operation
  pub failure : Option LeaseLoss

pub record World (W : Type 0) : Type 0 where
  pub store : Store
  pub backend : W
  pub calls : ℕ
  pub heartbeat : Option Heartbeat

-- What the controller is given, and what goes on beside it. An argument counts the calls that
-- were made before: `others` is what the other managers have done by then, `beats` how often the
-- heartbeat's ticker fires, `done` whether the caller's context has ended.
pub record Environment (W : Type 0) : Type 0 where
  pub platform : Platform
  pub others : ℕ → Store → W → Store × W
  -- the Renderer: whether its context has ended, the resource, and the error's text
  pub render : Bool → Resource → W → Option Text × W
  pub delete_rendered : Bool → Resource → W → Option Text × W
  pub now : ℕ → ℕ
  pub new_owner : ℕ → Text
  pub new_id : ℕ → Text
  pub done : ℕ → Bool
  pub completion_done : ℕ → Bool
  pub beats : ℕ → ℕ
  pub error_text : Error → Text

abbrev pub Run : Type 0 → Type 0 → Type 0
Run W A = World W → A × World W

abbrev pub return : {W A : Type 0} → A → Run W A
return a w = (a, w)

infixl 5 ◌>>=◌ ◌>>◌
unfoldable pub ◌>>=◌ : {W A B : Type 0} → Run W A → (A → Run W B) → Run W B
◌>>=◌ m k w = let (a, w') = m w in k a w'

abbrev pub ◌>>◌ : {W B : Type 0} → Run W (Unit {0}) → Run W B → Run W B
m >> k = m >>= λ _. k

-- A method of the store: the clock's reading, whether the context has ended, the store.
abbrev pub Method : Type 0 → Type 0
Method A = ℕ → Bool → Store → Result (A × Store)

abbrev pub with_renewed : Heartbeat → Option (Row Operation) → Heartbeat
with_renewed h none = h
with_renewed h (some o) = record h { operation = o }

abbrev pub after_renewal : Heartbeat → Store → Result (Resource × Store) → Heartbeat × Store
after_renewal h s (err e) = (record h { failure = some (renewal_failed e) }, s)
after_renewal h s (ok (r, s')) = (with_renewed h (as_row operation? r), s')

-- One tick of the heartbeat's goroutine.
unfoldable pub beat : ℕ → Heartbeat → Store → Heartbeat × Store
beat now h s = after_renewal h s (
    renew_operation_lease false h.operation.meta.id h.operation.meta.revision
      h.operation.value.lease_owner now s)

-- The first answer after a failure, else the second one.
abbrev pub after_failure : {A : Type 0} → Option LeaseLoss → A → A → A
after_failure (some _) stopped running = stopped
after_failure none stopped running = running

-- Its loop, which ends at the first failure.
unfoldable pub beat_times : ℕ → ℕ → Heartbeat → Store → Heartbeat × Store
unfolding beat
beat_times now zero h s = (h, s)
beat_times now (suc ticks) h s =
    let rest = (let (h', s') = beat now h s in beat_times now ticks h' s') in
    after_failure h.failure (h, s) rest

abbrev pub has_failed : Option Heartbeat → Bool
has_failed none = false
has_failed (some h) = elim h.failure [ none ↦ false | some _ ↦ true ]

-- The goroutine's turn: nothing without a heartbeat or after its failure. Where the context has
-- ended and a tick is due, the end is seen first.
unfoldable pub pulse : Bool → ℕ → ℕ → Option Heartbeat → Store → Option Heartbeat × Store
unfolding beat_times
pulse done now ticks none s = (none, s)
pulse done now ticks (some h) s =
    after_failure h.failure (some h, s)
      (if done
        then (some (record h { failure = some parent_stopped }), s)
        else (let (h', s') = beat_times now ticks h s in (some h', s')))

abbrev pub after_call : {W A : Type 0} → World W → Result (A × Store) → Result A × World W
after_call w (err e) = (err e, w)
after_call w (ok (a, s)) = (ok a, record w { store = s })

abbrev or_started : Row Operation → Option Heartbeat → Heartbeat
or_started o none = record { operation = o; failure = none }
or_started o (some h) = h

-- startHeartbeat
abbrev pub start_heartbeat : {W : Type 0} → Row Operation → Run W (Unit {0})
start_heartbeat o w = (tt, record w { heartbeat = some (record { operation = o; failure = none }) })

module _ {W : Type 0} (env : Environment W) where
  -- What has happened by the next call.
  unfoldable pub turn : World W → World W
  unfolding pulse
  turn w =
      let (s, b) = env.others w.calls w.store w.backend in
      let (h, s') = pulse (env.done w.calls) (env.now w.calls) (env.beats w.calls) w.heartbeat s in
      record { store = s'; backend = b; calls = suc w.calls; heartbeat = h }

  -- Whether the context of the call has ended: the caller's, or the one the heartbeat cancels.
  abbrev pub ended : ℕ → World W → Bool
  ended n w = env.done n || has_failed w.heartbeat

  -- A call of the store.
  unfoldable pub call : {A : Type 0} → Method A → Run W (Result A)
  unfolding turn
  call method w =
      let w' = turn w in after_call w' (method (env.now w.calls) (ended w.calls w') w'.store)

  -- A call under the detached context of completeOperation.
  unfoldable pub detached_call : {A : Type 0} → Method A → Run W (Result A)
  unfolding turn
  detached_call method w =
      let w' = turn w in
      after_call w' (method (env.now w.calls) (env.completion_done w.calls) w'.store)

  -- renderer.Render and renderer.Delete
  unfoldable pub render_call : Resource → Run W (Option Text)
  unfolding turn
  render_call r w =
      let w' = turn w in
      let (failure, b) = env.render (ended w.calls w') r w'.backend in
      (failure, record w' { backend = b })

  unfoldable pub delete_call : Resource → Run W (Option Text)
  unfolding turn
  delete_call r w =
      let w' = turn w in
      let (failure, b) = env.delete_rendered (ended w.calls w') r w'.backend in
      (failure, record w' { backend = b })

  -- c.now(), c.newOwner() and ctx.Err() != nil
  abbrev pub clock : Run W ℕ
  clock w = (env.now w.calls, w)

  abbrev pub owner : Run W Text
  owner w = (env.new_owner w.calls, w)

  abbrev pub parent_done : Run W Bool
  parent_done w = (env.done w.calls, w)

  abbrev pub fresh_id : Run W Text
  fresh_id w = (env.new_id w.calls, w)

  -- heartbeat.stop()
  unfoldable pub stop_heartbeat : Row Operation → Run W Heartbeat
  unfolding turn
  stop_heartbeat o w =
      let w' = turn w in (or_started o w'.heartbeat, record w' { heartbeat = none })
