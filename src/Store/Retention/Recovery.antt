-- ===== src/Store/Retention/Recovery.antt =====
-- RecoverExpiredOperations is bounded, and fails nothing but expired and superseded operations.
use proxmox_ovn.Prelude.{
  ℕ, zero, suc, ◌≤◌, min, ◌≡◌, ◌⊎◌, refl, sym, ap, subst, ◌∙◌, inl, inr, Bool, true, false, not,
  ◌&&◌, ◌||◌, ◌-◌, List, [], ◌∷◌, ◌++◌, arith, Option, none, some, ℤ, pos, ltb_ℤ, nat_beq, ltb,
  length, take, In, In-select, In-sort, In-take, In-append, if◌then◌else◌, ◌==◌, int_eq, Bool-cases,
  and-true, or-true, ==→≡,
}
use proxmox_ovn.Text.{Text, text, text_eq}
use proxmox_ovn.Result.{ok, cancelled, conflict, then-ok, refuse, ok_inj}
use proxmox_ovn.Model.Kind.{Kind, kind_eq}
use proxmox_ovn.Model.Resource.{Operation, OperationStatus, resource_kind}
use proxmox_ovn.Model.Validation.Policy.{lease_protected_action, is_running}
use proxmox_ovn.Store.Table.{Table, Row, lookup, put, rows, operation?}
use proxmox_ovn.Store.Idempotency.{Store}
use proxmox_ovn.Store.Lease.{failed_row, lease_is_live}
use proxmox_ovn.Store.Retention.{
  to_ℕ, is_queued, recover_all, recover_expired_operations, recovery_candidates,
  expired_running_operations, superseded_queued_reconciles, is_expired_running,
  is_superseded_queued, updated_before, operation_superseded, operation_recovery_error,
  max_expired_operation_recover_batch,
}
use proxmox_ovn.Store.Retention.Bounds.{IsSuperseded, IsSuperseded-IsSuperseded}
use proxmox_ovn.Store.Versions.{put-DiffersAt}

take_bounded : {A : Type 0} (n : ℕ) (xs : List A) → length (take n xs) ≤ n
take_bounded zero xs = ground arith
take_bounded (suc n) [] = ground arith
take_bounded (suc n) (x ∷ xs) = ground (arith, take_bounded n xs)

candidates_bounded :
    (t : Table) (cutoff limit : ℕ) → length (recovery_candidates t cutoff limit) ≤ limit
unfolding recovery_candidates
candidates_bounded t cutoff limit = take_bounded limit _

batch_min : (a b : ℕ) → (if ltb a b then a else b) ≡ min a b
batch_min a b = ground arith

failed_row_key :
    (o : Row Operation) (e : Text) (now : ℕ)
    → (resource_kind (failed_row o e now) ≡ Kind.operation)
      × ((failed_row o e now).meta.id ≡ o.meta.id)
unfolding failed_row
failed_row_key o e now = (refl, refl)

le_min_left : (n a b : ℕ) → n ≤ min a b → n ≤ a
le_min_left n a b h = ground arith

le_min_right : (n a b : ℕ) → n ≤ min a b → n ≤ b
le_min_right n a b h = ground arith

-- The row under the key is that of the last operation of the list with this key, failed.
abbrev pub Failed : ℕ → List (Row Operation) → Table → Kind → Text → Type 0
Failed completed operations u k i =
    (o : Row Operation) × In o operations
    × (k ≡ Kind.operation)
    × (i ≡ o.meta.id)
    × (lookup u k i ≡ some (failed_row o (operation_recovery_error o.value) completed))

recover_all_changes :
    (completed : ℕ) (operations : List (Row Operation)) (t : Table) (k : Kind) (i : Text)
    → (lookup (recover_all completed operations t) k i ≡ lookup t k i)
      ⊎ Failed completed operations (recover_all completed operations t) k i
unfolding recover_all
recover_all_changes completed [] t k i = inl refl
recover_all_changes completed (o ∷ operations) t k i =
    let row = failed_row o (operation_recovery_error o.value) completed in
    let differs =
      put-DiffersAt t (put t row) row Kind.operation o.meta.id refl (failed_row_key o _ completed) k
        i in
    elim (recover_all_changes completed operations (put t row) k i) [
      | inr (x, m, ek, ei, written) ↦ inr (x, inr m, ek, ei, written)
      | inl same ↦ elim (Bool-cases (k == Kind.operation && i == o.meta.id)) [
        | inl hit ↦
            let (ek, ei) = and-true (k == Kind.operation) (i == o.meta.id) hit in
            inr (
              o,
              inl refl,
              ==→≡ k Kind.operation ek,
              ==→≡ i o.meta.id ei,
              same ∙ (rw hit at differs),
            )
        | inr miss ↦ inl (same ∙ (rw miss at differs))
      ]
    ]

recovery_outcome :
    (done : Bool) (cutoff recovered : ℕ) (limit : ℤ) (s : Store) {c : ℕ × Store}
    → recover_expired_operations done cutoff recovered limit s ≡ ok c
    → (
      length (
          recovery_candidates s.resources cutoff
            (min max_expired_operation_recover_batch (to_ℕ limit))),
      record s {
        resources =
            recover_all recovered
              (recovery_candidates s.resources cutoff
                (min max_expired_operation_recover_batch (to_ℕ limit)))
              s.resources;
      },
    )
      ≡ c
unfolding recover_expired_operations
recovery_outcome done cutoff recovered limit s h =
    let (_, rest) = then-ok (refuse done cancelled) _ h in
    let (_, rest') =
      then-ok (refuse (nat_beq cutoff 0 || nat_beq recovered 0 || ltb_ℤ limit (pos 1)) conflict) _
        rest in
    rw (← batch_min max_expired_operation_recover_batch (to_ℕ limit)) (ok_inj rest')

-- A lease that was never started, or that was last renewed no later than the cutoff.
abbrev pub IsExpired : ℕ → Row Operation → Type 0
IsExpired cutoff o = (o.value.started_at ≡ none) ⊎ (o.meta.updated_at ≤ cutoff)

-- What makes an operation one that may be recovered.
pub record IsRecoverable (t : Table) (cutoff : ℕ) (o : Row Operation) : Type 0 where
  pub stored : In o (rows operation? t)
  pub reason :
      ((o.value.operation_status ≡ OperationStatus.running)
        × ((o.value.action ≡ text "reconcile") ⊎ (o.value.action ≡ text "delete"))
        × IsExpired cutoff o)
      ⊎ ((o.value.operation_status ≡ OperationStatus.queued)
          × (o.value.action ≡ text "reconcile")
          × IsSuperseded t o.value)

running_status :
    (status : OperationStatus) → is_running status ≡ true → status ≡ OperationStatus.running
running_status OperationStatus.running h = refl
running_status _ h = absurd (cc)

queued_status :
    (status : OperationStatus) → is_queued status ≡ true → status ≡ OperationStatus.queued
queued_status OperationStatus.queued h = refl
queued_status _ h = absurd (cc)

protected_action :
    (action : Text)
    → lease_protected_action action ≡ true
    → (action ≡ text "reconcile") ⊎ (action ≡ text "delete")
unfolding lease_protected_action
protected_action action h =
    elim (or-true (action == text "reconcile") (action == text "delete") h) [
      | inl e ↦ inl (==→≡ action (text "reconcile") e)
      | inr e ↦ inr (==→≡ action (text "delete") e)
    ]

expired_at :
    (started : Option ℕ) (updated cutoff : ℕ)
    → not ((elim started [ none ↦ false | some _ ↦ true ]) && ltb cutoff updated) ≡ true
    → (started ≡ none) ⊎ (updated ≤ cutoff)
expired_at none updated cutoff h = inl refl
expired_at (some _) updated cutoff h = inr (ground arith)

expired-IsRecoverable :
    (t : Table) (cutoff : ℕ) (o : Row Operation)
    → In o (expired_running_operations t cutoff)
    → IsRecoverable t cutoff o
unfolding expired_running_operations is_expired_running lease_is_live
expired-IsRecoverable t cutoff o m =
    let (stored, h) =
      In-select (is_expired_running cutoff) (rows operation? t) o (In-sort updated_before _ o m) in
    let (first, dead) = and-true _ (not (lease_is_live o cutoff)) h in
    let (action, running) =
      and-true (lease_protected_action o.value.action) (is_running o.value.operation_status)
        first in
    record {
      stored = stored;
      reason = inl (
        running_status o.value.operation_status running,
        protected_action o.value.action action,
        expired_at o.value.started_at o.meta.updated_at cutoff dead,
      );
    }

queued-IsRecoverable :
    (t : Table) (cutoff : ℕ) (o : Row Operation)
    → In o (superseded_queued_reconciles t)
    → IsRecoverable t cutoff o
unfolding superseded_queued_reconciles is_superseded_queued
queued-IsRecoverable t cutoff o m =
    let (stored, h) =
      In-select (is_superseded_queued t) (rows operation? t) o (In-sort updated_before _ o m) in
    let (first, superseded) = and-true _ (operation_superseded t o.value) h in
    let (action, queued) =
      and-true (o.value.action == text "reconcile") (is_queued o.value.operation_status) first in
    record {
      stored = stored;
      reason = inr (
        queued_status o.value.operation_status queued,
        ==→≡ o.value.action (text "reconcile") action,
        IsSuperseded-IsSuperseded t o.value superseded,
      );
    }

candidate-IsRecoverable :
    (t : Table) (cutoff limit : ℕ) (o : Row Operation)
    → In o (recovery_candidates t cutoff limit)
    → IsRecoverable t cutoff o
unfolding recovery_candidates
candidate-IsRecoverable t cutoff limit o m = either (In-take limit _ o m)
  where
    parts :
        (xs ys : List (Row Operation))
        → ((x : Row Operation) → In x xs → IsRecoverable t cutoff x)
        → ((x : Row Operation) → In x ys → IsRecoverable t cutoff x)
        → In o (xs ++ ys)
        → IsRecoverable t cutoff o
    parts xs ys hx hy n = elim (In-append xs ys o n) [ inl a ↦ hx o a | inr b ↦ hy o b ]

    either :
        In o (
          if ltb (length (expired_running_operations t cutoff)) limit
          then expired_running_operations t cutoff
            ++ take
                (limit - length (expired_running_operations t cutoff))
                (superseded_queued_reconciles t)
          else expired_running_operations t cutoff)
        → IsRecoverable t cutoff o
    either n = elim (Bool-cases (ltb (length (expired_running_operations t cutoff)) limit)) [
      | inl room ↦
          parts _ _ (expired-IsRecoverable t cutoff)
            (λ x k. queued-IsRecoverable t cutoff x (In-take _ _ x k)) (rw room at n)
      | inr full ↦ expired-IsRecoverable t cutoff o (rw full at n)
    ]

-- RecoverExpiredOperations changes no row but that of a stored operation that is a running
-- reconcile or delete whose lease has expired, or a queued reconcile whose target is missing, an
-- operation or at a later revision; and the new row of the key is that of the failed operation.
pub recover_expired_operations_spares :
    (done : Bool) (cutoff recovered : ℕ) (limit : ℤ) (s : Store) {c : ℕ × Store} (k : Kind)
    (i : Text)
    → recover_expired_operations done cutoff recovered limit s ≡ ok c
    → (lookup c.1.resources k i ≡ lookup s.resources k i)
      ⊎ ((o : Row Operation) × (k ≡ Kind.operation)
          × (i ≡ o.meta.id)
          × IsRecoverable s.resources cutoff o
          × (lookup c.1.resources k i
              ≡ some (failed_row o (operation_recovery_error o.value) recovered)))
recover_expired_operations_spares done cutoff recovered limit s {c} k i h =
    let limit' = min max_expired_operation_recover_batch (to_ℕ limit) in
    let operations = recovery_candidates s.resources cutoff limit' in
    let after : recover_all recovered operations s.resources ≡ c.1.resources =
      ap (λ (r : ℕ × Store). r.1.resources) (recovery_outcome done cutoff recovered limit s h) in
    elim (recover_all_changes recovered operations s.resources k i) [
      | inl same ↦ inl (ap (λ t. lookup t k i) (sym after) ∙ same)
      | inr (o, m, ek, ei, written) ↦ inr (
        o,
        ek,
        ei,
        candidate-IsRecoverable s.resources cutoff limit' o m,
        ap (λ t. lookup t k i) (sym after) ∙ written,
      )
    ]

-- RecoverExpiredOperations changes the rows of no more operations than it reports: these stand
-- in a list of the reported length, which is at most `limit` and at most a batch of 256.
pub recover_expired_operations_bounded :
    (done : Bool) (cutoff recovered : ℕ) (limit : ℤ) (s : Store) {c : ℕ × Store}
    → recover_expired_operations done cutoff recovered limit s ≡ ok c
    → (failed : List (Row Operation)) × (length failed ≡ c.0)
      × (length failed ≤ max_expired_operation_recover_batch)
      × (length failed ≤ to_ℕ limit)
      × ((k : Kind) (i : Text)
          → (lookup c.1.resources k i ≡ lookup s.resources k i)
            ⊎ Failed recovered failed c.1.resources k i)
recover_expired_operations_bounded done cutoff recovered limit s {c} h =
    let limit' = min max_expired_operation_recover_batch (to_ℕ limit) in
    let operations = recovery_candidates s.resources cutoff limit' in
    let outcome = recovery_outcome done cutoff recovered limit s h in
    let bounded = candidates_bounded s.resources cutoff limit' in
    (
      operations,
      ap (λ (r : ℕ × Store). r.0) outcome,
      le_min_left _ _ _ bounded,
      le_min_right _ _ _ bounded,
      subst
          (λ (r : ℕ × Store).
            (k : Kind) (i : Text)
            → (lookup r.1.resources k i ≡ lookup s.resources k i)
              ⊎ Failed recovered operations r.1.resources k i)
          outcome (recover_all_changes recovered operations s.resources),
    )
