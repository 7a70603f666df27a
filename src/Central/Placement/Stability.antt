-- ===== src/Central/Placement/Stability.antt =====
-- Select of internal/central/placement.go run again after its plan was applied.
use proxmox_ovn.Prelude.{
  ◌≤◌, ◌≡◌, refl, sym, ap, ◌∙◌, ◌⊎◌, inl, inr, true, false, not, List, [], arith, length, count,
  sort, ◌==◌, Bool-cases,
}
use proxmox_ovn.Text.{Text, text_eq}
use proxmox_ovn.Central.Placement.{
  Node, Plan, PlacementError, ordered_nodes, node_before, valid_voter_count, seen, same_set,
  plan_for, after_ordered, select_plan,
}
use proxmox_ovn.Central.Placement.Counting.{count_none, count_some}
use proxmox_ovn.Central.Placement.Plans.{plan_for-inr}
use proxmox_ovn.Central.Placement.Electorate.{select_plan-IsElectorate, after_ordered-inr}
use proxmox_ovn.Central.Placement.Sets.{same_set_iff}

plan-cases :
    (s : PlacementError ⊎ Plan)
    → ((e : PlacementError) × (s ≡ inl e)) ⊎ ((plan : Plan) × (s ≡ inr plan))
plan-cases (inl e) = inl (e, refl)
plan-cases (inr plan) = inr (plan, refl)

pub plan_for_valid :
    (ordered : List Node) (existing : List Text)
    → valid_voter_count (length ordered) ≡ true
    → (plan : Plan) × (plan_for ordered existing ≡ inr plan)
unfolding plan_for
plan_for_valid ordered existing valid = elim (plan-cases (plan_for ordered existing)) [
  | inr made ↦ made
  | inl (e, refused) ↦ let h = rw valid at refused in cc
]

-- Whether there is a plan does not depend on the present voters.
select_plan_any_existing :
    (nodes : List Node) (existing others : List Text) (plan : Plan)
    → select_plan nodes existing ≡ inr plan
    → (again : Plan) × (select_plan nodes others ≡ inr again)
unfolding select_plan after_ordered
select_plan_any_existing nodes existing others plan h =
    let (ordered, found, planned) = after_ordered-inr (ordered_nodes [] nodes) existing plan h in
    let (valid, made) = plan_for-inr (sort node_before ordered) existing plan planned in
    let (again, e) = plan_for_valid (sort node_before ordered) others valid in
    (again, ap (λ f. after_ordered f others) found ∙ e)

select_plan-requires :
    (nodes : List Node) (existing : List Text) (plan : Plan)
    → select_plan nodes existing ≡ inr plan
    → plan.requires_promotion ≡ not (same_set plan.voters existing)
unfolding select_plan
select_plan-requires nodes existing plan h =
    let (ordered, found, planned) = after_ordered-inr (ordered_nodes [] nodes) existing plan h in
    let (valid, made) = plan_for-inr (sort node_before ordered) existing plan planned in
    rw made refl

-- Of lists without repetition that hold the same texts, one counts no more than the other.
count_same_seen :
    (xs ys : List Text) (x : Text)
    → count (λ v. v == x) xs ≤ 1
    → seen x xs ≡ seen x ys
    → count (λ v. v == x) xs ≤ count (λ v. v == x) ys
count_same_seen xs ys x once same = elim (Bool-cases (seen x ys)) [
  | inl there ↦ ground (arith, once, count_some (λ v. v == x) ys there)
  | inr absent ↦ ground (arith, count_none (λ v. v == x) xs (same ∙ absent))
]

-- When Select has made a plan, it makes one again for the same nodes once the planned voters
-- are the present ones, and that plan requires no promotion.
pub select_plan-select_plan :
    (nodes : List Node) (existing : List Text) (plan : Plan)
    → select_plan nodes existing ≡ inr plan
    → (again : Plan) × (select_plan nodes plan.voters ≡ inr again)
      × (again.requires_promotion ≡ false)
select_plan-select_plan nodes existing plan h =
    let (again, e) = select_plan_any_existing nodes existing plan.voters plan h in
    let (once, members, size, target, odd) = select_plan-IsElectorate nodes existing plan h in
    let (once', members', size', target', odd') =
      select_plan-IsElectorate nodes plan.voters again e in
    let same : same_set again.voters plan.voters ≡ true =
      (same_set_iff again.voters plan.voters).1 (
        size' ∙ target' ∙ sym target ∙ sym size,
        λ x. count_same_seen plan.voters again.voters x (once x) (members x ∙ sym (members' x)),
      ) in
    (again, e, select_plan-requires nodes plan.voters again e ∙ ap not same)
