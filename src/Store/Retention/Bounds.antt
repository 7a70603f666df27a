-- ===== src/Store/Retention/Bounds.antt =====
-- PruneOperations is bounded, and removes nothing but superseded reconciles that ended long ago.
use proxmox_ovn.Prelude.{
  ℕ, zero, suc, ◌+◌, ◌≤◌, ◌<◌, ◌≡◌, ◌⊎◌, refl, ◌∙◌, sym, ap, some_inj, ltb→lt, inl, inr, Bool, true,
  false, ◌&&◌, ◌||◌, List, [], ◌∷◌, arith, Option, none, some, ℤ, pos, ltb_ℤ, nat_beq, ltb, drop,
  count, In, In-drop, In-select, In-sort, if-keeps, ◌==◌, int_eq, Bool-cases, and-true, ==→≡,
  Option-cases,
}
use proxmox_ovn.Text.{Text, text, text_eq}
use proxmox_ovn.Result.{cancelled, conflict, then-ok, refuse, ok, answered}
use proxmox_ovn.Model.Kind.{Kind, kind_eq}
use proxmox_ovn.Model.Resource.{Resource, Operation, OperationStatus}
use proxmox_ovn.Store.Table.{Table, Row, lookup, rows, operation?}
use proxmox_ovn.Store.Table.Laws.{lookup-remove_ne}
use proxmox_ovn.Store.Idempotency.{Store, IdempotencyRecord, Records, find_record, delete_record}
use proxmox_ovn.Store.Lease.{lookup_target}
use proxmox_ovn.Store.Retention.{
  prune_loop, prune_operations, terminal_reconcile_operations, to_ℕ, max_operation_prune_batch,
  prunes, without_operation, is_terminal, is_prunable, is_finished, operation_superseded,
  completion, completed_before, is_completed, owns_record, create_scope,
}
use proxmox_ovn.Store.Retention.Newest.{ended_since, dropped_newer}
use proxmox_ovn.Store.Versions.Removals.{other_key}

one_more : (n pruned room : ℕ) → n ≤ pruned + 1 + room → n ≤ pruned + suc room
one_more n pruned room h = ground arith

prune_loop_bounded :
    (before room : ℕ) (operations : List (Row Operation)) (pruned : ℕ) (s : Store)
    → (prune_loop before room operations pruned s).0 ≤ pruned + room
unfolding prune_loop
prune_loop_bounded before room [] pruned s = ground arith
prune_loop_bounded before zero (o ∷ operations) pruned s = ground arith
prune_loop_bounded before (suc room) (o ∷ operations) pruned s =
    if-keeps (λ (r : ℕ × Store). r.0 ≤ pruned + suc room) _ _ _
      (one_more _ pruned room (prune_loop_bounded before room operations (pruned + 1) _))
      (prune_loop_bounded before (suc room) operations pruned s)

-- Only operations differ from one table to the other.
abbrev AgreesButOperations : Table → Table → Type 0
AgreesButOperations t u =
    (k : Kind) (i : Text) → (k == Kind.operation) ≡ false → lookup u k i ≡ lookup t k i

-- Why a row is gone: the operation of the list that was pruned, at the store of that moment.
record Pruned (before : ℕ) (operations : List (Row Operation)) (s : Store) (k : Kind) (i : Text)
    : Type 0 where
  pub row : Row Operation
  pub listed : In row operations
  pub key : (k == Kind.operation && i == row.meta.id) ≡ true
  pub moment : Store
  pub frame : AgreesButOperations s.resources moment.resources
  pub records : (e : Text × IdempotencyRecord) → In e moment.idempotency → In e s.idempotency
  pub chosen : prunes moment before row ≡ true

In-delete :
    (rs : Records) (gone : Text) (e : Text × IdempotencyRecord)
    → In e (delete_record rs gone)
    → In e rs
unfolding delete_record
In-delete [] gone e m = m
In-delete ((key, old) ∷ rs) gone e m = elim (Bool-cases (key == gone)) [
  | inl hit ↦ inr (In-delete rs gone e (rw hit at m))
  | inr miss ↦
      let m' : ((key, old) ≡ e) ⊎ In e (delete_record rs gone) = rw miss at m in
      elim m' [ inl same ↦ inl same | inr rest ↦ inr (In-delete rs gone e rest) ]
]

In-find :
    (rs : Records) (scope : Text) (r : IdempotencyRecord)
    → find_record rs scope ≡ some r
    → In (scope, r) rs
unfolding find_record
In-find [] scope r h = cc
In-find ((key, old) ∷ rs) scope r h = elim (Bool-cases (key == scope)) [
  | inl hit ↦
      let found : old ≡ r = some_inj (rw hit at h) in
      inl (ap (λ k. (k, old)) (==→≡ key scope hit) ∙ ap (λ x. (scope, x)) found)
  | inr miss ↦ inr (In-find rs scope r (rw miss at h))
]

removal_frame :
    (s : Store) (o : Row Operation)
    → AgreesButOperations s.resources (without_operation s o).resources
removal_frame s o k i other =
    lookup-remove_ne s.resources Kind.operation k o.meta.id i
      (λ x. other_key Kind.operation k o.meta.id i x (rw other refl))

prune_loop_changes :
    (before room : ℕ) (operations : List (Row Operation)) (pruned : ℕ) (s : Store) (k : Kind)
    (i : Text)
    → (lookup (prune_loop before room operations pruned s).1.resources k i ≡ lookup s.resources k i)
      ⊎ Pruned before operations s k i
unfolding prune_loop
prune_loop_changes before room [] pruned s k i = inl refl
prune_loop_changes before zero (o ∷ operations) pruned s k i = inl refl
prune_loop_changes before (suc room) (o ∷ operations) pruned s k i =
    elim (Bool-cases (prunes s before o)) [
      | inr kept ↦ rw kept (elim (prune_loop_changes before (suc room) operations pruned s k i) [
        | inl same ↦ inl same
        | inr p ↦ inr (record {
          row = p.row;
          listed = inr p.listed;
          key = p.key;
          moment = p.moment;
          frame = p.frame;
          records = p.records;
          chosen = p.chosen;
        })
      ])
      | inl gone ↦ rw gone (elim (Bool-cases (k == Kind.operation && i == o.meta.id)) [
        | inl hit ↦ inr (record {
          row = o;
          listed = inl refl;
          key = hit;
          moment = s;
          frame = λ k i other. refl;
          records = λ e m. m;
          chosen = gone;
        })
        | inr miss ↦
            elim (prune_loop_changes before room operations (pruned + 1) (without_operation s o) k
              i) [
                | inl same ↦ inl (
                    same
                    ∙ lookup-remove_ne s.resources Kind.operation k o.meta.id i
                        (λ x. other_key Kind.operation k o.meta.id i x miss))
                | inr p ↦ inr (record {
                  row = p.row;
                  listed = inr p.listed;
                  key = p.key;
                  moment = p.moment;
                  frame = λ k i other. p.frame k i other ∙ removal_frame s o k i other;
                  records = λ e m. In-delete s.idempotency _ e (p.records e m);
                  chosen = p.chosen;
                })
              ]
      ])
    ]

-- PruneOperations removes at most a batch of 256 operations.
pub prune_operations_bounded :
    (done : Bool) (before : ℕ) (keep : ℤ) (s : Store) {c : ℕ × Store}
    → prune_operations done before keep s ≡ ok c
    → c.0 ≤ max_operation_prune_batch
unfolding prune_operations
prune_operations_bounded done before keep s h =
    let (_, rest) = then-ok (refuse done cancelled) _ h in
    let (_, rest') = then-ok (refuse (nat_beq before 0 || ltb_ℤ keep (pos 0)) conflict) _ rest in
    answered (λ (r : ℕ × Store). r.0 ≤ max_operation_prune_batch) _ _ _ rest' (ground arith)
      (prune_loop_bounded before max_operation_prune_batch
        (drop (to_ℕ keep) (terminal_reconcile_operations s.resources)) 0 s)

-- The target of the operation is missing, is itself an operation, or has a later revision.
abbrev pub IsSuperseded : Table → Operation → Type 0
IsSuperseded t o =
    (lookup_target t o ≡ none)
    ⊎ (o.target_kind ≡ some Kind.operation)
    ⊎ ((target : Resource) × (lookup_target t o ≡ some target)
        × (ltb_ℤ o.target_revision target.meta.revision ≡ true))

pub IsSuperseded-IsSuperseded :
    (t : Table) (o : Operation) → operation_superseded t o ≡ true → IsSuperseded t o
unfolding operation_superseded
IsSuperseded-IsSuperseded t o h = elim (Option-cases (lookup_target t o)) [
  | inl gone ↦ inl gone
  | inr (target, there) ↦ inr (inr (target, there, rw (operation_superseded, there) at h))
]

same_target :
    (t u : Table) (o : Operation)
    → AgreesButOperations t u
    → (o.target_kind ≡ some Kind.operation) ⊎ (lookup_target u o ≡ lookup_target t o)
unfolding lookup_target
same_target t u o agrees = elim (Option-cases o.target_kind) [
  | inl untargeted ↦ inr (rw untargeted refl)
  | inr (k, targeted) ↦ elim (Bool-cases (k == Kind.operation)) [
    | inl e ↦ inl (targeted ∙ ap some (==→≡ k Kind.operation e))
    | inr other ↦ inr (rw targeted (agrees k o.target_id other))
  ]
]

IsSuperseded-before :
    (t u : Table) (o : Operation) → AgreesButOperations t u → IsSuperseded u o → IsSuperseded t o
IsSuperseded-before t u o agrees superseded = elim (same_target t u o agrees) [
  | inl operation ↦ inr (inl operation)
  | inr same ↦ elim superseded [
    | inl gone ↦ inl (sym same ∙ gone)
    | inr more ↦ elim more [
      | inl operation ↦ inr (inl operation)
      | inr (target, there, later) ↦ inr (inr (target, sym same ∙ there, later))
    ]
  ]
]

-- What makes an operation one that may be pruned.
pub record IsOutdated (s : Store) (before keep : ℕ) (o : Row Operation) : Type 0 where
  pub stored : In o (rows operation? s.resources)
  pub reconciles : o.value.action ≡ text "reconcile"
  pub has_ended :
      (o.value.operation_status ≡ OperationStatus.succeeded)
      ⊎ (o.value.operation_status ≡ OperationStatus.failed)
  pub time : ℕ
  pub completed : o.value.completed_at ≡ some time
  pub old : time < before
  pub newer : keep < count (ended_since time) (rows operation? s.resources)
  pub superseded : IsSuperseded s.resources o.value
  pub record_of : IdempotencyRecord
  pub remembered : In (create_scope o, record_of) s.idempotency
  pub names : record_of.resource.meta.id ≡ o.meta.id

finished_status :
    (status : OperationStatus)
    → is_finished status ≡ true
    → (status ≡ OperationStatus.succeeded) ⊎ (status ≡ OperationStatus.failed)
finished_status OperationStatus.succeeded h = inl refl
finished_status OperationStatus.failed h = inr refl
finished_status _ h = absurd (cc)

record_owner :
    (found : Option IdempotencyRecord) (id : Text)
    → owns_record found id ≡ true
    → (r : IdempotencyRecord) × (found ≡ some r) × (r.resource.meta.id ≡ id)
unfolding owns_record
record_owner none id h = cc
record_owner (some r) id h = (r, refl, ==→≡ r.resource.meta.id id h)

completion_time :
    (stored : Option ℕ) (before : ℕ)
    → (elim stored [ none ↦ false | some _ ↦ true ]) ≡ true
    → ltb (elim stored [ none ↦ 0 | some time ↦ time ]) before ≡ true
    → (time : ℕ) × (stored ≡ some time) × (time < before)
completion_time none before there h = cc
completion_time (some time) before there h = (time, refl, ltb→lt time before h)

Pruned-IsOutdated :
    (before keep : ℕ) (s : Store) (k : Kind) (i : Text)
    (p : Pruned before (drop keep (terminal_reconcile_operations s.resources)) s k i)
    → IsOutdated s before keep p.row
unfolding is_prunable terminal_reconcile_operations is_terminal
Pruned-IsOutdated before keep s k i p =
    let o = p.row in
    let (prunable, owned) =
      and-true (is_prunable p.moment.resources before o)
        (owns_record (find_record p.moment.idempotency (create_scope o)) o.meta.id) p.chosen in
    let (timely, superseded) =
      and-true _ (operation_superseded p.moment.resources o.value) prunable in
    let (done, early) = and-true (is_completed o) (ltb (completion o) before) timely in
    let (time, completed, old) = completion_time o.value.completed_at before done early in
    let (r, found, names) = record_owner _ o.meta.id owned in
    let (stored, ended) =
      In-select is_terminal (rows operation? s.resources) o
        (In-sort completed_before _ o (In-drop keep _ o p.listed)) in
    let (first, finished) = and-true _ (is_finished o.value.operation_status) ended in
    let (action, _) = and-true (o.value.action == text "reconcile") (is_completed o) first in
    record {
      stored = stored;
      reconciles = ==→≡ o.value.action (text "reconcile") action;
      has_ended = finished_status o.value.operation_status finished;
      time = time;
      completed = completed;
      old = old;
      newer = dropped_newer s.resources keep o time p.listed completed;
      superseded =
          IsSuperseded-before s.resources p.moment.resources o.value p.frame
            (IsSuperseded-IsSuperseded p.moment.resources o.value superseded);
      record_of = r;
      remembered = p.records _ (In-find p.moment.idempotency (create_scope o) r found);
      names = names;
    }

-- PruneOperations changes no row but that of an operation, and only if this is a stored
-- reconcile that succeeded or failed before the cutoff, if more than `keep` reconciles of the
-- store ended at that time or later, if its target is missing, an operation or at a later
-- revision, and if a replay record of its key names it.
pub prune_operations_spares :
    (done : Bool) (before : ℕ) (keep : ℤ) (s : Store) {c : ℕ × Store} (k : Kind) (i : Text)
    → prune_operations done before keep s ≡ ok c
    → (lookup c.1.resources k i ≡ lookup s.resources k i)
      ⊎ ((o : Row Operation) × (k ≡ Kind.operation)
          × (i ≡ o.meta.id)
          × IsOutdated s before (to_ℕ keep) o)
unfolding prune_operations
prune_operations_spares done before keep s k i h =
    let (_, rest) = then-ok (refuse done cancelled) _ h in
    let (_, rest') = then-ok (refuse (nat_beq before 0 || ltb_ℤ keep (pos 0)) conflict) _ rest in
    answered
      (λ (r : ℕ × Store).
        (lookup r.1.resources k i ≡ lookup s.resources k i)
        ⊎ ((o : Row Operation) × (k ≡ Kind.operation)
            × (i ≡ o.meta.id)
            × IsOutdated s before (to_ℕ keep) o))
      _ _ _ rest' (inl refl)
      (elim (prune_loop_changes before max_operation_prune_batch
        (drop (to_ℕ keep) (terminal_reconcile_operations s.resources)) 0 s k i) [
          | inl same ↦ inl same
          | inr p ↦
              let (ek, ei) = and-true (k == Kind.operation) (i == p.row.meta.id) p.key in
              inr (
                p.row,
                ==→≡ k Kind.operation ek,
                ==→≡ i p.row.meta.id ei,
                Pruned-IsOutdated before (to_ℕ keep) s k i p,
              )
        ])
