-- ===== src/Central/Placement/Plans.antt =====
-- What Select plans, internal/central/placement.go: every node that may vote, and no other.
use proxmox_ovn.Prelude.{
  ◌+◌, ◌≤◌, ◌≡◌, ◌⊎◌, refl, subst, inl, inr, Bool, true, false, not, ◌&&◌, ◌||◌, List, [], ◌∷◌,
  ◌++◌, arith, nat_beq, length, any, all, count, ◌==◌, if◌then◌else◌, Bool-cases, ==→≡, ==_refl,
}
use proxmox_ovn.Text.{Text, text_eq, is_empty}
use proxmox_ovn.Central.Placement.{
  standalone, raft, Node, Plan, PlacementError, has_name, ordered_nodes, valid_voter_count, seen,
  keep_existing, fill_slots, same_set, plan_for,
}
use proxmox_ovn.Central.Placement.Counting.{
  any-snoc, count-snoc, length-snoc, count_none, count-all, count_disjoint, all-count, count_some,
}
use proxmox_ovn.Central.Placement.Voters.{IsSelection, count-seen, count-has_name}

-- Selected names are all found among the nodes.
count_selected :
    (ordered : List Node) (voters : List Text)
    → ((name : Text) → count (λ v. v == name) voters ≤ 1)
    → ((name : Text) → seen name voters ≡ true → any (has_name name) ordered ≡ true)
    → length voters ≤ count (λ (n : Node). seen n.name voters) ordered
count_selected ordered [] distinct known = ground arith
count_selected ordered (v ∷ voters) distinct known =
    let apart : (n : Node) → ((v == n.name) && seen n.name voters) ≡ false = λ n.
      elim (Bool-cases (v == n.name)) [
        | inr differs ↦ rw differs refl
        | inl same ↦ elim (Bool-cases (seen n.name voters)) [
          | inr new ↦ rw (same, new) refl
          | inl old ↦ ground (arith, distinct n.name, count_some (λ w. w == n.name) voters old)
        ]
      ] in
    let rest =
      count_selected ordered voters (λ name. ground (arith, distinct name))
        (λ name h. known name (ground arith)) in
    ground (
      arith,
      count_disjoint (λ (n : Node). v == n.name) (λ (n : Node). seen n.name voters) ordered apart,
      count-has_name v ordered,
      count_some (has_name v) ordered (known v (ground (arith, ==_refl v))),
      rest,
    )

-- A selection that is filled from the nodes has every one of them.
pub filled_has_all :
    (ordered : List Node) (voters : List Text)
    → ((name : Text) → count (has_name name) ordered ≤ 1)
    → IsSelection ordered (length ordered) voters
    → (length voters ≡ length ordered) ⊎ (all (λ (n : Node). seen n.name voters) ordered ≡ true)
    → (length voters ≡ length ordered) × (all (λ (n : Node). seen n.name voters) ordered ≡ true)
filled_has_all ordered voters names (distinct, known, few) (inl full) =
    (full, all-count _ ordered (ground (arith, count_selected ordered voters distinct known)))
filled_has_all ordered voters names (distinct, known, few) (inr every) = (
  ground (
    arith,
    count-all (λ (n : Node). seen n.name voters) ordered every,
    count-seen ordered voters names,
  ),
  every,
)

-- A round of the first loop that ends well.
pub ordered_nodes_step :
    (found : List Node) (node : Node) (nodes ordered : List Node)
    → ordered_nodes found (node ∷ nodes) ≡ inr ordered
    → ((node.online && node.eligible && any (has_name node.name) found) ≡ false)
      × (ordered_nodes (if node.online && node.eligible then found ++ (node ∷ []) else found) nodes
          ≡ inr ordered)
unfolding ordered_nodes
ordered_nodes_step found node nodes ordered h = elim (Bool-cases (is_empty node.name)) [
  | inl nameless ↦ let h' = rw nameless at h in cc
  | inr named ↦
      elim (Bool-cases ((node.online && node.eligible) && any (has_name node.name) found)) [
        | inl twice ↦ let h' = rw (named, twice) at h in cc
        | inr once ↦ (ground arith, rw (named, once) at h)
      ]
]

abbrev found_list : List Node → PlacementError ⊎ List Node
found_list = inr

inr_inj : {a b : List Node} → found_list a ≡ inr b → a ≡ b
inr_inj h = ground arith

abbrev pub votes : Node → Bool
votes node = node.online && node.eligible

abbrev pub next_found : Node → List Node → List Node
next_found node found = if votes node then found ++ (node ∷ []) else found

next_found-distinct :
    (node : Node) (found : List Node) (name : Text)
    → (votes node && any (has_name node.name) found) ≡ false
    → count (has_name name) found ≤ 1
    → count (has_name name) (next_found node found) ≤ 1
next_found-distinct node found name once d = elim (Bool-cases (votes node)) [
  | inr idle ↦ rw idle d
  | inl voter ↦
      let new : any (has_name node.name) found ≡ false = ground (arith, voter) in
      rw voter (elim (Bool-cases (node.name == name)) [
        | inl same ↦
            let none_yet : count (has_name name) found ≡ 0 =
              count_none (has_name name) found
                (subst (λ z. any (has_name z) found ≡ false) (==→≡ node.name name same) new) in
            ground (arith, count-snoc (has_name name) found node)
        | inr differs ↦ ground (arith, count-snoc (has_name name) found node)
      ])
]

-- The nodes that the first loop finds bear different names.
pub ordered_nodes-distinct :
    (found nodes ordered : List Node)
    → ordered_nodes found nodes ≡ inr ordered
    → ((name : Text) → count (has_name name) found ≤ 1)
    → (name : Text) → count (has_name name) ordered ≤ 1
unfolding ordered_nodes
ordered_nodes-distinct found [] ordered h d name =
    subst (λ o. count (has_name name) o ≤ 1) (inr_inj h) (d name)
ordered_nodes-distinct found (node ∷ nodes) ordered h d name =
    let (once, rest) = ordered_nodes_step found node nodes ordered h in
    ordered_nodes-distinct (next_found node found) nodes ordered rest
      (λ other. next_found-distinct node found other (ground arith) (d other)) name

-- They are those that may vote, in number and by name.
pub ordered_nodes-length :
    (found nodes ordered : List Node)
    → ordered_nodes found nodes ≡ inr ordered
    → length ordered ≡ length found + count votes nodes
unfolding ordered_nodes
ordered_nodes-length found [] ordered h =
    subst (λ o. length o ≡ length found + 0) (inr_inj h) (ground arith)
ordered_nodes-length found (node ∷ nodes) ordered h =
    let (once, rest) = ordered_nodes_step found node nodes ordered h in
    let later = ordered_nodes-length (next_found node found) nodes ordered rest in
    elim (Bool-cases (votes node)) [
      | inl voter ↦ let l = rw voter at later in ground (arith, l, length-snoc found node)
      | inr idle ↦ let l = rw idle at later in ground (arith, l)
    ]

pub ordered_nodes-any :
    (found nodes ordered : List Node) (name : Text)
    → ordered_nodes found nodes ≡ inr ordered
    → any (has_name name) ordered
      ≡ (any (has_name name) found || any (λ n. votes n && has_name name n) nodes)
unfolding ordered_nodes
ordered_nodes-any found [] ordered name h =
    subst (λ o. any (has_name name) o ≡ (any (has_name name) found || false)) (inr_inj h)
      (ground arith)
ordered_nodes-any found (node ∷ nodes) ordered name h =
    let (once, rest) = ordered_nodes_step found node nodes ordered h in
    let later = ordered_nodes-any (next_found node found) nodes ordered name rest in
    elim (Bool-cases (votes node)) [
      | inl voter ↦
          let l = rw voter at later in ground (arith, l, any-snoc (has_name name) found node)
      | inr idle ↦ let l = rw idle at later in ground (arith, l)
    ]

pub all-seen :
    (ordered : List Node) (voters : List Text) (name : Text)
    → all (λ (n : Node). seen n.name voters) ordered ≡ true
    → any (has_name name) ordered ≡ true
    → seen name voters ≡ true
all-seen [] voters name every h = cc
all-seen (n ∷ ordered) voters name every h = elim (Bool-cases (n.name == name)) [
  | inl same ↦ subst (λ z. seen z voters ≡ true) (==→≡ n.name name same) (ground (arith, every))
  | inr differs ↦ all-seen ordered voters name (ground arith) (ground arith)
]

-- The plan for the nodes that may vote, when it is made.
pub plan_for-inr :
    (ordered : List Node) (existing : List Text) (plan : Plan)
    → plan_for ordered existing ≡ inr plan
    → (valid_voter_count (length ordered) ≡ true)
      × (plan ≡ record {
        mode = if nat_beq (length ordered) 1 then standalone else raft;
        voters =
            fill_slots
              (length ordered)
              ordered
              (keep_existing ordered (length ordered) existing []);
        target_voter_count = length ordered;
        requires_promotion = not (
            same_set
              (fill_slots
                (length ordered)
                ordered
                (keep_existing ordered (length ordered) existing []))
              existing);
        warning = [];
      })
unfolding plan_for
plan_for-inr ordered existing plan h = elim (Bool-cases (valid_voter_count (length ordered))) [
  | inl valid ↦ let h' = rw valid at h in (valid, ground arith)
  | inr odd ↦ let h' = rw odd at h in cc
]
