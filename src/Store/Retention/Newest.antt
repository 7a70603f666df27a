-- ===== src/Store/Retention/Newest.antt =====
-- The order in which PruneOperations meets ended reconciles: the newest come first.
use proxmox_ovn.Prelude.{
  ℕ, ◌<◌, ◌≡◌, Bool, true, false, not, ◌&&◌, Option, none, some, arith, In, and-true, count, drop,
  select, leb, ltb, nat_beq, drop-sort, count-select, ◌==◌, if◌then◌else◌,
}
use proxmox_ovn.Text.{Text, text, text_eq, text_lt}
use proxmox_ovn.Text.Order.{text_lt-IsStrictOrder}
use proxmox_ovn.Model.Resource.{Operation}
use proxmox_ovn.Store.Table.{Table, Row, rows, operation?}
use proxmox_ovn.Store.Retention.{
  completed_before, completion, is_completed, is_terminal, is_finished,
  terminal_reconcile_operations,
}

newer_first :
    (s t : ℕ) (i j : Text)
    → (if nat_beq s t then text_lt i j else ltb t s) ≡ true
    → (if nat_beq t s then text_lt j i else ltb s t) ≡ false
newer_first s t i j h = ground (arith, text_lt-IsStrictOrder.asym i j)

completed_before_asym :
    (a b : Row Operation) → completed_before a b ≡ true → completed_before b a ≡ false
completed_before_asym a b h = newer_first (completion a) (completion b) a.meta.id b.meta.id h

newer_between :
    (s t u : ℕ) (i j k : Text)
    → (if nat_beq s t then text_lt i j else ltb t s) ≡ true
    → (if nat_beq s u then text_lt i k else ltb u s) ≡ false
    → (if nat_beq u t then text_lt k j else ltb t u) ≡ true
newer_between s t u i j k h miss = ground (arith, text_lt-IsStrictOrder.between i j k)

completed_before_between :
    (x a b : Row Operation)
    → completed_before x a ≡ true
    → completed_before x b ≡ false
    → completed_before b a ≡ true
completed_before_between x a b h miss =
    newer_between (completion x) (completion a) (completion b) x.meta.id a.meta.id b.meta.id h miss

-- A reconcile that had ended at the time or ended later.
abbrev pub ended_since : ℕ → Row Operation → Bool
ended_since time o =
    o.value.action == text "reconcile"
    && is_finished o.value.operation_status
    && (elim o.value.completed_at [ none ↦ false | some completed ↦ leb time completed ])

not_behind_at :
    (time : ℕ) (stored : Option ℕ) (i j : Text)
    → (elim stored [ none ↦ false | some _ ↦ true ]) ≡ true
    → (if nat_beq time (elim stored [ none ↦ 0 | some completed ↦ completed ])
        then text_lt i j
        else ltb (elim stored [ none ↦ 0 | some completed ↦ completed ]) time)
      ≡ false
    → (elim stored [ none ↦ false | some completed ↦ leb time completed ]) ≡ true
not_behind_at time none i j h miss = cc
not_behind_at time (some completed) i j h miss = ground arith

not_behind :
    (o p : Row Operation) (time : ℕ)
    → o.value.completed_at ≡ some time
    → is_terminal p ≡ true
    → not (completed_before o p) ≡ true
    → ended_since time p ≡ true
unfolding is_terminal
not_behind o p time e ended h =
    let (first, finished) = and-true _ (is_finished p.value.operation_status) ended in
    let (action, completed) =
      and-true (p.value.action == text "reconcile") (is_completed p) first in
    let ended_at : completion o ≡ time = rw e (λ i. time) in
    let miss : completed_before o p ≡ false = ground arith in
    rw (action, finished)
      (not_behind_at time p.value.completed_at o.meta.id p.meta.id completed (rw ended_at at miss))

-- Behind the newest n ended reconciles, more than n of them ended at the time of this one or
-- later.
pub dropped_newer :
    (t : Table) (n : ℕ) (o : Row Operation) (time : ℕ)
    → In o (drop n (terminal_reconcile_operations t))
    → o.value.completed_at ≡ some time
    → n < count (ended_since time) (rows operation? t)
unfolding terminal_reconcile_operations
dropped_newer t n o time m e =
    let behind =
      drop-sort completed_before completed_before_asym completed_before_between n
        (select is_terminal (rows operation? t)) o m in
    let counted =
      count-select is_terminal (λ p. not (completed_before o p)) (ended_since time)
        (rows operation? t) (λ p. not_behind o p time e) in
    ground arith
