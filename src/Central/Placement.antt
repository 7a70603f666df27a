-- ===== src/Central/Placement.antt =====
-- Which nodes carry the central database: Select of internal/central/placement.go. The names that
-- its map `seen` holds are those of the voters, and the names of its map `eligible` are those of
-- the nodes in `ordered`, so that both are read from the lists. Error texts are dropped.
use proxmox_ovn.Prelude.{
  ℕ, suc, ◌+◌, ◌-◌, ◌%◌, ◌⊎◌, inl, inr, Bool, true, false, not, ◌&&◌, ◌||◌, List, [], ◌∷◌, ◌++◌,
  arith, ℤ, ltb_ℤ, int_eq, ltb, nat_beq, length, any, sort, ◌==◌, if◌then◌else◌,
}
use proxmox_ovn.Text.{Text, text_eq, text_lt, is_empty}
pub mod Counting
pub mod Voters
pub mod Plans
pub mod Electorate
pub mod Sets
pub mod Stability
pub mod Success

pub data Mode : Type 0 where
  standalone raft : Mode

pub record Node : Type 0 where
  pub name : Text
  pub online : Bool
  pub eligible : Bool
  pub order : ℤ

pub record Plan : Type 0 where
  pub mode : Mode
  pub voters : List Text
  pub target_voter_count : ℕ
  pub requires_promotion : Bool
  pub warning : Text

pub data PlacementError : Type 0 where
  name_required : PlacementError
  duplicate_node : Text → PlacementError
  voter_count : ℕ → PlacementError

abbrev pub has_name : Text → Node → Bool
has_name name node = node.name == name

-- The first loop: the nodes that may vote, after those that were found before.
unfoldable pub ordered_nodes : List Node → List Node → PlacementError ⊎ List Node
ordered_nodes ordered [] = inr ordered
ordered_nodes ordered (node ∷ nodes) =
    let votes = node.online && node.eligible in
    let rest = ordered_nodes (if votes then ordered ++ (node ∷ []) else ordered) nodes in
    if is_empty node.name
    then inl name_required
    else if votes && any (has_name node.name) ordered
    then inl (duplicate_node node.name)
    else rest

unfoldable pub node_before : Node → Node → Bool
node_before i j = if i.order == j.order then text_lt i.name j.name else ltb_ℤ i.order j.order

-- validateVoterCount(count) == nil
unfoldable pub valid_voter_count : ℕ → Bool
valid_voter_count count = not (ltb count 1 || nat_beq (count % 2) 0)

abbrev pub seen : Text → List Text → Bool
seen name voters = any (λ v. v == name) voters

-- The second loop: healthy voters stay.
unfoldable pub keep_existing : List Node → ℕ → List Text → List Text → List Text
keep_existing eligible target [] voters = voters
keep_existing eligible target (name ∷ existing) voters = keep_existing eligible target existing (
    if not (any (has_name name) eligible) || nat_beq (length voters) target
    then voters
    else if seen name voters
    then voters
    else voters ++ (name ∷ []))

-- The third loop: nodes in order until there are enough voters.
unfoldable pub fill_slots : ℕ → List Node → List Text → List Text
fill_slots target [] voters = voters
fill_slots target (node ∷ ordered) voters =
    let rest =
      fill_slots target ordered
        (if seen node.name voters then voters else voters ++ (node.name ∷ [])) in
    if nat_beq (length voters) target then voters else rest

-- The counts of sameSet's map.
abbrev pub increment_all : (Text → ℕ) → List Text → Text → ℕ
increment_all set [] = set
increment_all set (value ∷ a) = increment_all (λ x. (if value == x then 1 else 0) + set x) a

-- A count that would fall below zero ends the loop.
abbrev pub decrement_all : (Text → ℕ) → List Text → Bool
decrement_all set [] = true
decrement_all set (value ∷ b) =
    let rest = decrement_all (λ x. set x - (if value == x then 1 else 0)) b in
    if ltb (set value) 1 then false else rest

unfoldable pub same_set : List Text → List Text → Bool
same_set a b =
    if not (nat_beq (length a) (length b))
    then false
    else decrement_all (increment_all (λ x. 0) a) b

-- What Select does with the nodes that may vote.
unfoldable pub plan_for : List Node → List Text → PlacementError ⊎ Plan
unfolding valid_voter_count keep_existing fill_slots same_set
plan_for ordered existing =
    let target = length ordered in
    let kept = keep_existing ordered target existing [] in
    let voters = fill_slots target ordered kept in
    if not (valid_voter_count target)
    then inl (voter_count target)
    else inr (record {
      mode = if nat_beq target 1 then standalone else raft;
      voters = voters;
      target_voter_count = target;
      requires_promotion = not (same_set voters existing);
      warning = [];
    })

unfoldable pub after_ordered : PlacementError ⊎ List Node → List Text → PlacementError ⊎ Plan
after_ordered (inl e) existing = inl e
after_ordered (inr ordered) existing = plan_for (sort node_before ordered) existing

unfoldable pub select_plan : List Node → List Text → PlacementError ⊎ Plan
unfolding ordered_nodes node_before after_ordered plan_for
select_plan nodes existing = after_ordered (ordered_nodes [] nodes) existing
