-- ===== src/Reconcile/Quiet.antt =====
-- Calls of the controller of internal/reconcile/reconcile.go when nothing interferes.
use proxmox_ovn.Prelude.{
  int_eq, ℕ, suc, ◌≡◌, refl, subst, ap, ◌∙◌, true, false, Option, none, some, arith, ltb_ℤ_irrefl,
  ==_refl,
}
use proxmox_ovn.Text.{Text}
use proxmox_ovn.Result.{ok}
use proxmox_ovn.Model.Kind.{Kind}
use proxmox_ovn.Model.Resource.{Resource, resource_kind}
use proxmox_ovn.Store.Table.{lookup, put}
use proxmox_ovn.Store.Table.Laws.{lookup-put_self}
use proxmox_ovn.Store.Idempotency.{Store}
use proxmox_ovn.Store.Read.{get}
use proxmox_ovn.Store.Reconciled.{mark_reconciled, rendered, applied_rendering}
use proxmox_ovn.Store.Uniqueness.Claims.{body_kind-mark_floating}
use proxmox_ovn.Reconcile.World.{
  Heartbeat, LeaseLoss, World, Environment, Method, after_failure, after_call, has_failed, pulse,
  turn, call, ended, render_call,
}
use proxmox_ovn.Reconcile.Calls.{get_method, mark_method}
use proxmox_ovn.Reconcile.Work.{is_deleting}
use proxmox_ovn.Reconcile.Decisions.{is_realized}

-- Nobody else is at work, no context ends, the ticker does not fire, and rendering succeeds.
pub record IsQuiet {W : Type 0} (env : Environment W) : Type 0 where
  pub alone : (n : ℕ) (s : Store) (b : W) → env.others n s b ≡ (s, b)
  pub open_context : (n : ℕ) → env.done n ≡ false
  pub silent : (n : ℕ) → env.beats n ≡ 0
  pub renders : (r : Resource) (b : W) → (env.render false r b).0 ≡ none

running :
    {A : Type 0} (o : Option LeaseLoss) (x y : A)
    → (elim o [ none ↦ false | some _ ↦ true ]) ≡ false
    → after_failure o x y ≡ y
running none x y h = refl
running (some _) x y h = cc

pulse_quiet :
    (now : ℕ) (h : Option Heartbeat) (s : Store)
    → has_failed h ≡ false
    → pulse false now 0 h s ≡ (h, s)
unfolding pulse
pulse_quiet now none s live = refl
pulse_quiet now (some h) s live = running h.failure _ _ live

abbrev pub after : {W : Type 0} → World W → World W
after w = record w { calls = suc w.calls }

pub get_found :
    (kind : Kind) (id : Text) (now : ℕ) (s : Store) (r : Resource)
    → lookup s.resources kind id ≡ some r
    → get_method kind id now false s ≡ ok (r, s)
unfolding get
get_found kind id now s r there = rw there refl

-- The row that MarkReconciled makes of a row at its own revision.
abbrev pub marked : ℕ → Resource → Resource
marked now r = rendered r.meta.revision none now r

pub mark_found :
    (kind : Kind) (id : Text) (now : ℕ) (s : Store) (r : Resource)
    → lookup s.resources kind id ≡ some r
    → mark_method kind id r.meta.revision none now false s
      ≡ ok (marked now r, record s { resources = put s.resources (marked now r) })
unfolding mark_reconciled
mark_found kind id now s r there = rw (there, ltb_ℤ_irrefl r.meta.revision) refl

pub marked_meta :
    (now : ℕ) (r : Resource)
    → ((marked now r).meta.revision ≡ r.meta.revision)
      × ((marked now r).meta.id ≡ r.meta.id)
      × (resource_kind (marked now r) ≡ resource_kind r)
      × (is_deleting (marked now r) ≡ false)
      × (is_realized (marked now r).meta ≡ true)
unfolding rendered applied_rendering is_deleting is_realized
marked_meta now r =
    let same = ==_refl r.meta.revision in
    (
      rw same refl,
      rw same refl,
      rw same (body_kind-mark_floating false r.body),
      rw same refl,
      rw same (ground (arith, ltb_ℤ_irrefl r.meta.revision)),
    )

pub marked_found :
    (now : ℕ) (s : Store) (r : Resource)
    → lookup (put s.resources (marked now r)) (resource_kind r) r.meta.id ≡ some (marked now r)
marked_found now s r =
    let (revision, id, kind, lives, realized) = marked_meta now r in
    subst (λ k. lookup (put s.resources (marked now r)) k r.meta.id ≡ some (marked now r)) kind
      (subst
        (λ i.
          lookup (put s.resources (marked now r)) (resource_kind (marked now r)) i
          ≡ some (marked now r))
        id (lookup-put_self s.resources (marked now r)))

module _ {W : Type 0} (env : Environment W) (quiet : IsQuiet env) where
  turn_quiet : (w : World W) → has_failed w.heartbeat ≡ false → turn env w ≡ after w
  unfolding turn
  turn_quiet w live =
      rw
        (
          quiet.alone w.calls w.store w.backend,
          quiet.open_context w.calls,
          quiet.silent w.calls,
          pulse_quiet (env.now w.calls) w.heartbeat w.store live,
        )
        refl

  call_after :
      {A : Type 0} (method : Method A) (w w' : World W)
      → turn env w ≡ w'
      → call env method w ≡ after_call w' (method (env.now w.calls) (ended env w.calls w') w'.store)
  unfolding call
  call_after method w w' e = rw (← e) refl

  render_after :
      (r : Resource) (w w' : World W)
      → turn env w ≡ w'
      → render_call env r w ≡ (
        (env.render (ended env w.calls w') r w'.backend).0,
        record w' { backend = (env.render (ended env w.calls w') r w'.backend).1 },
      )
  unfolding render_call
  render_after r w w' e = rw (← e) refl

  still_open : (w : World W) → has_failed w.heartbeat ≡ false → ended env w.calls (after w) ≡ false
  still_open w live = rw (quiet.open_context w.calls, live) refl

  pub call_quiet :
      {A : Type 0} (method : Method A) (w : World W)
      → has_failed w.heartbeat ≡ false
      → call env method w ≡ after_call (after w) (method (env.now w.calls) false (after w).store)
  call_quiet method w live =
      call_after method w (after w) (turn_quiet w live)
      ∙ ap (λ done. after_call (after w) (method (env.now w.calls) done (after w).store))
          (still_open w live)

  pub render_quiet :
      (r : Resource) (w : World W)
      → has_failed w.heartbeat ≡ false
      → render_call env r w
        ≡ (none, record (after w) { backend = (env.render false r w.backend).1 })
  render_quiet r w live =
      render_after r w (after w) (turn_quiet w live)
      ∙ ap
          (λ done. (
            (env.render done r w.backend).0,
            record (after w) { backend = (env.render done r w.backend).1 },
          ))
          (still_open w live)
      ∙ ap (λ e. (e, record (after w) { backend = (env.render false r w.backend).1 }))
          (quiet.renders r w.backend)

  -- The call of the store answers, and the world is the next one.
  pub answered_quiet :
      {A : Type 0} (method : Method A) (w : World W) (a : A) (s : Store)
      → has_failed w.heartbeat ≡ false
      → method (env.now w.calls) false w.store ≡ ok (a, s)
      → call env method w ≡ (ok a, record (after w) { store = s })
  answered_quiet method w a s live e = call_quiet method w live ∙ ap (after_call (after w)) e
