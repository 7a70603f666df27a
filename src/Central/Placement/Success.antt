-- ===== src/Central/Placement/Success.antt =====
-- When Select of internal/central/placement.go makes a plan.
use proxmox_ovn.Prelude.{
  ℕ, ◌+◌, ◌%◌, ◌≤◌, ◌≡◌, ◌↔◌, refl, ap, ◌∙◌, inl, inr, Bool, true, false, not, ◌&&◌, List, [], ◌∷◌,
  arith, length, any, all, count, sort, ==_refl, Bool-cases, if◌then◌else◌,
}
use proxmox_ovn.Text.{Text, text_eq, is_empty}
use proxmox_ovn.Central.Placement.{
  Node, Plan, has_name, ordered_nodes, node_before, valid_voter_count, after_ordered, select_plan,
}
use proxmox_ovn.Central.Placement.Counting.{count-snoc, count_some, length-sort}
use proxmox_ovn.Central.Placement.Plans.{
  votes, next_found, ordered_nodes_step, ordered_nodes-length, ordered_nodes-distinct, plan_for-inr,
}
use proxmox_ovn.Central.Placement.Electorate.{after_ordered-inr}
use proxmox_ovn.Central.Placement.Stability.{plan_for_valid}

abbrev pub named : Node → Bool
named node = not (is_empty node.name)

abbrev pub votes_as : Text → Node → Bool
votes_as name node = votes node && has_name name node

ordered_nodes-named :
    (found nodes ordered : List Node)
    → ordered_nodes found nodes ≡ inr ordered
    → all named nodes ≡ true
unfolding ordered_nodes
ordered_nodes-named found [] ordered h = refl
ordered_nodes-named found (node ∷ nodes) ordered h =
    let (once, rest) = ordered_nodes_step found node nodes ordered h in
    let later = ordered_nodes-named (next_found node found) nodes ordered rest in
    elim (Bool-cases (is_empty node.name)) [
      | inl nameless ↦ let h' = rw nameless at h in cc
      | inr has ↦ ground (arith, has, later)
    ]

count-next_found :
    (name : Text) (node : Node) (found : List Node)
    → count (has_name name) (next_found node found)
      ≡ count (has_name name) found + (if votes_as name node then 1 else 0)
count-next_found name node found = elim (Bool-cases (votes node)) [
  | inl voter ↦ rw voter (count-snoc (has_name name) found node)
  | inr idle ↦ rw idle (ground arith)
]

ordered_nodes-count :
    (found nodes ordered : List Node) (name : Text)
    → ordered_nodes found nodes ≡ inr ordered
    → count (has_name name) ordered ≡ count (has_name name) found + count (votes_as name) nodes
unfolding ordered_nodes
ordered_nodes-count found [] ordered name h = ground arith
ordered_nodes-count found (node ∷ nodes) ordered name h =
    let (once, rest) = ordered_nodes_step found node nodes ordered h in
    ground (
      arith,
      ordered_nodes-count (next_found node found) nodes ordered name rest,
      count-next_found name node found,
    )

-- The first loop ends well on named nodes of which no two that may vote share a name.
ordered_nodes_succeeds :
    (found nodes : List Node)
    → all named nodes ≡ true
    → ((name : Text) → count (has_name name) found + count (votes_as name) nodes ≤ 1)
    → (ordered : List Node) × (ordered_nodes found nodes ≡ inr ordered)
unfolding ordered_nodes
ordered_nodes_succeeds found [] all_named once = (found, refl)
ordered_nodes_succeeds found (node ∷ nodes) all_named once =
    let has : is_empty node.name ≡ false = ground (arith, all_named) in
    let new : (votes node && any (has_name node.name) found) ≡ false =
      elim (Bool-cases (votes node && any (has_name node.name) found)) [
        | inr new ↦ new
        | inl twice ↦ ground (
          arith,
          once node.name,
          ==_refl node.name,
          count_some (has_name node.name) found (ground arith),
        )
      ] in
    let (ordered, e) =
      ordered_nodes_succeeds (next_found node found) nodes (ground arith)
        (λ name. ground (arith, once name, count-next_found name node found)) in
    (ordered, rw (has, new) e)

valid_voter_count_iff : (n : ℕ) → (valid_voter_count n ≡ true) ↔ (n % 2 ≡ 1)
unfolding valid_voter_count
valid_voter_count_iff n = ground arith

ordered_size :
    (nodes ordered : List Node)
    → ordered_nodes [] nodes ≡ inr ordered
    → length (sort node_before ordered) ≡ count votes nodes
ordered_size nodes ordered found =
    ground (arith, length-sort node_before ordered, ordered_nodes-length [] nodes ordered found)

-- Select makes a plan, whichever voters there are, exactly when every node has a name, no two
-- online and eligible nodes share one, and the number of those nodes is odd.
pub select_plan_iff :
    (nodes : List Node) (existing : List Text)
    → ((plan : Plan) × (select_plan nodes existing ≡ inr plan)) ↔ (
        (all named nodes ≡ true)
        × ((name : Text) → count (votes_as name) nodes ≤ 1)
        × (count votes nodes % 2 ≡ 1))
unfolding select_plan after_ordered
select_plan_iff nodes existing = (
  λ made.
      let (plan, h) = made in
      let (ordered, found, planned) = after_ordered-inr (ordered_nodes [] nodes) existing plan h in
      let (valid, e) = plan_for-inr (sort node_before ordered) existing plan planned in
      (
        ordered_nodes-named [] nodes ordered found,
        λ name. ground (
          arith,
          ordered_nodes-count [] nodes ordered name found,
          ordered_nodes-distinct [] nodes ordered found (λ other. ground arith) name,
        ),
        rw (← ordered_size nodes ordered found) ((valid_voter_count_iff _).0 valid),
      ),
  λ h.
      let (all_named, once, odd) = h in
      let (ordered, found) =
        ordered_nodes_succeeds [] nodes all_named (λ name. ground (arith, once name)) in
      let size = ordered_size nodes ordered found in
      let (plan, e) =
        plan_for_valid (sort node_before ordered) existing
          ((valid_voter_count_iff (length (sort node_before ordered))).1 (rw size odd)) in
      (plan, ap (λ f. after_ordered f existing) found ∙ e),
)
