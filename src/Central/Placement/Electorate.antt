-- ===== src/Central/Placement/Electorate.antt =====
-- Select of internal/central/placement.go as a whole: the voters are the nodes that may vote.
use proxmox_ovn.Prelude.{
  ℕ, ◌%◌, ◌≤◌, ◌≡◌, refl, sym, ◌∙◌, ◌⊎◌, inl, inr, true, ◌&&◌, List, [], arith, length, any, count,
  sort, ◌==◌, Bool-antisym,
}
use proxmox_ovn.Text.{Text, text_eq}
use proxmox_ovn.Central.Placement.{
  Node, Plan, PlacementError, has_name, ordered_nodes, node_before, valid_voter_count, seen,
  keep_existing, fill_slots, plan_for, after_ordered, select_plan,
}
use proxmox_ovn.Central.Placement.Counting.{any-sort, count-sort, length-sort}
use proxmox_ovn.Central.Placement.Voters.{
  IsSelection, keep_existing-IsSelection, fill_slots-IsSelection, fill_slots-IsFilled,
}
use proxmox_ovn.Central.Placement.Plans.{
  filled_has_all, ordered_nodes-distinct, ordered_nodes-length, ordered_nodes-any, all-seen,
  plan_for-inr, votes,
}

-- The voters of a plan: no name twice, the names of the online and eligible nodes and of no
-- others, as many as those nodes, which are odd in number.
abbrev pub IsElectorate : List Node → Plan → Type 0
IsElectorate nodes plan =
    ((name : Text) → count (λ v. v == name) plan.voters ≤ 1)
    × ((name : Text)
        → seen name plan.voters ≡ any (λ n. n.online && n.eligible && has_name name n) nodes)
    × (length plan.voters ≡ plan.target_voter_count)
    × (plan.target_voter_count ≡ count votes nodes)
    × (plan.target_voter_count % 2 ≡ 1)

no_voters-IsSelection : (ordered : List Node) (target : ℕ) → IsSelection ordered target []
no_voters-IsSelection ordered target = (λ name. ground arith, λ name h. cc, ground arith)

valid_voter_count_odd : (n : ℕ) → valid_voter_count n ≡ true → n % 2 ≡ 1
unfolding valid_voter_count
valid_voter_count_odd n h = ground arith

-- What is planned for nodes of different names.
plan_for_voters :
    (ordered : List Node) (existing : List Text) (plan : Plan)
    → ((name : Text) → count (has_name name) ordered ≤ 1)
    → plan_for ordered existing ≡ inr plan
    → ((name : Text) → count (λ v. v == name) plan.voters ≤ 1)
      × ((name : Text) → seen name plan.voters ≡ any (has_name name) ordered)
      × (length plan.voters ≡ length ordered)
      × (plan.target_voter_count ≡ length ordered)
      × (length ordered % 2 ≡ 1)
plan_for_voters ordered existing plan names h =
    let (valid, made) = plan_for-inr ordered existing plan h in
    let target = length ordered in
    let kept = keep_existing ordered target existing [] in
    let voters = fill_slots target ordered kept in
    let selection =
      fill_slots-IsSelection ordered target ordered kept (λ name m. m)
        (keep_existing-IsSelection ordered target existing []
          (no_voters-IsSelection ordered target)) in
    let (as_many, every) =
      filled_has_all ordered voters names selection (fill_slots-IsFilled target ordered kept) in
    let (distinct, known, few) = selection in
    rw made (
      distinct,
      λ name.
          Bool-antisym (seen name voters) (any (has_name name) ordered) (known name)
            (all-seen ordered voters name every),
      as_many,
      refl,
      valid_voter_count_odd target valid,
    )

pub after_ordered-inr :
    (found : PlacementError ⊎ List Node) (existing : List Text) (plan : Plan)
    → after_ordered found existing ≡ inr plan
    → (ordered : List Node) × (found ≡ inr ordered)
      × (plan_for (sort node_before ordered) existing ≡ inr plan)
unfolding after_ordered
after_ordered-inr (inl e) existing plan h = cc
after_ordered-inr (inr ordered) existing plan h = (ordered, refl, h)

-- The voters that Select plans bear different names, they are exactly the names of the nodes
-- that are online and eligible, and their number, the target of the plan, is odd and that of
-- those nodes.
pub select_plan-IsElectorate :
    (nodes : List Node) (existing : List Text) (plan : Plan)
    → select_plan nodes existing ≡ inr plan
    → IsElectorate nodes plan
unfolding select_plan
select_plan-IsElectorate nodes existing plan h =
    let (ordered, found, planned) = after_ordered-inr (ordered_nodes [] nodes) existing plan h in
    let names = ordered_nodes-distinct [] nodes ordered found (λ name. ground arith) in
    let (distinct, members, as_many, target, odd) =
      plan_for_voters (sort node_before ordered) existing plan
        (λ name. ground (arith, names name, count-sort node_before (has_name name) ordered))
        planned in
    let size = length-sort node_before ordered in
    let number = ordered_nodes-length [] nodes ordered found in
    (
      distinct,
      λ name.
          members name
          ∙ any-sort node_before (has_name name) ordered
          ∙ ordered_nodes-any [] nodes ordered name found,
      as_many ∙ sym target,
      ground (arith, target, size, number),
      rw target odd,
    )
