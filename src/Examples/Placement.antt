-- ===== src/Examples/Placement.antt =====
-- The theorems on the placement of the central database, at a cluster of four nodes.
use proxmox_ovn.Prelude.{
  ℕ, ◌≤◌, ◌≡◌, ◌↔◌, refl, inl, inr, Bool, true, false, List, [], ◌∷◌, pos, count, all, ◌%◌, sort,
  insert_sorted,
}
use proxmox_ovn.Text.{Text, text, text_eq, text_beq, text_lt}
use proxmox_ovn.Central.Placement.{
  raft, Node, Plan, duplicate_node, voter_count, ordered_nodes, node_before, valid_voter_count,
  keep_existing, fill_slots, same_set, plan_for, after_ordered, select_plan,
}
use proxmox_ovn.Central.Placement.Electorate.{IsElectorate, select_plan-IsElectorate}
use proxmox_ovn.Central.Placement.Stability.{select_plan-select_plan}
use proxmox_ovn.Central.Placement.Plans.{votes}
use proxmox_ovn.Central.Placement.Success.{named, votes_as, select_plan_iff}

abbrev node_at : Text → Bool → ℕ → Node
node_at name online order = record {
  name = name;
  online = online;
  eligible = true;
  order = pos order;
}

-- One of the four is offline, and one that is not enrolled first votes already.
abbrev cluster : List Node
cluster =
    node_at (text "c") true 3
    ∷ node_at (text "a") true 1
    ∷ node_at (text "d") false 0
    ∷ node_at (text "b") true 2
    ∷ []

abbrev cluster_plan : Plan
cluster_plan = record {
  mode = raft;
  voters = text "b" ∷ text "a" ∷ text "c" ∷ [];
  target_voter_count = 3;
  requires_promotion = true;
  warning = [];
}

planned_cluster : select_plan cluster (text "d" ∷ text "b" ∷ []) ≡ inr cluster_plan
unfolding select_plan ordered_nodes after_ordered node_before sort insert_sorted plan_for
    valid_voter_count keep_existing fill_slots same_set text_beq text_lt
planned_cluster = refl

-- A name that votes twice is refused, and so is an even number of voters.
refused_duplicate :
    select_plan (node_at (text "a") true 1 ∷ node_at (text "a") true 2 ∷ []) []
    ≡ inl (duplicate_node (text "a"))
unfolding select_plan ordered_nodes after_ordered node_before sort insert_sorted plan_for
    valid_voter_count keep_existing fill_slots same_set text_beq text_lt
refused_duplicate = refl

refused_even :
    select_plan (node_at (text "a") true 1 ∷ node_at (text "b") true 2 ∷ []) []
    ≡ inl (voter_count 2)
unfolding select_plan ordered_nodes after_ordered node_before sort insert_sorted plan_for
    valid_voter_count keep_existing fill_slots same_set text_beq text_lt
refused_even = refl

select_plan-IsElectorate_example : IsElectorate cluster cluster_plan
select_plan-IsElectorate_example =
    select_plan-IsElectorate cluster (text "d" ∷ text "b" ∷ []) cluster_plan planned_cluster

select_plan-select_plan_example :
    (again : Plan) × (select_plan cluster cluster_plan.voters ≡ inr again)
    × (again.requires_promotion ≡ false)
select_plan-select_plan_example =
    select_plan-select_plan cluster (text "d" ∷ text "b" ∷ []) cluster_plan planned_cluster

select_plan_iff_example : ((plan : Plan) × (select_plan cluster [] ≡ inr plan)) ↔ (
    (all named cluster ≡ true)
    × ((name : Text) → count (votes_as name) cluster ≤ 1)
    × (count votes cluster % 2 ≡ 1))
select_plan_iff_example = select_plan_iff cluster []
