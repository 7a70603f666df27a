-- ===== src/Central/Placement/Voters.antt =====
-- The voters that Select plans, internal/central/placement.go: distinct nodes that may vote.
use proxmox_ovn.Prelude.{
  ℕ, ◌≤◌, ◌≡◌, ◌⊎◌, refl, sym, subst, inl, inr, true, false, not, ◌||◌, List, [], ◌∷◌, ◌++◌, arith,
  nat_beq, length, any, all, count, ◌==◌, if◌then◌else◌, Bool-cases, ==→≡, ==_refl, ==_iff,
  Bool-antisym,
}
use proxmox_ovn.Text.{Text, text_eq}
use proxmox_ovn.Central.Placement.{Node, has_name, seen, keep_existing, fill_slots}
use proxmox_ovn.Central.Placement.Counting.{length-snoc, any-snoc, count-snoc, count_none, count-or}

-- No name twice, each the name of a node of the list, and no more than the target.
abbrev pub IsSelection : List Node → ℕ → List Text → Type 0
IsSelection ordered target voters =
    ((name : Text) → count (λ v. v == name) voters ≤ 1)
    × ((name : Text) → seen name voters ≡ true → any (has_name name) ordered ≡ true)
    × (length voters ≤ target)

-- A voter that is new and may vote is added while there is room.
add-IsSelection :
    (ordered : List Node) (target : ℕ) (voters : List Text) (name : Text)
    → any (has_name name) ordered ≡ true
    → seen name voters ≡ false
    → nat_beq (length voters) target ≡ false
    → IsSelection ordered target voters
    → IsSelection ordered target (voters ++ (name ∷ []))
add-IsSelection ordered target voters name votes new room (distinct, known, few) = (
  λ other. elim (Bool-cases (name == other)) [
    | inl same ↦
        let fresh : count (λ v. v == other) voters ≡ 0 =
          count_none (λ v. v == other) voters
            (subst (λ z. seen z voters ≡ false) (==→≡ name other same) new) in
        ground (arith, count-snoc (λ v. v == other) voters name, fresh)
    | inr differs ↦ ground (arith, count-snoc (λ v. v == other) voters name, distinct other)
  ],
  λ other h. elim (Bool-cases (name == other)) [
    | inl same ↦ subst (λ z. any (has_name z) ordered ≡ true) (==→≡ name other same) votes
    | inr differs ↦ known other (ground (arith, any-snoc (λ v. v == other) voters name))
  ],
  ground (arith, length-snoc voters name),
)

pub keep_existing-IsSelection :
    (ordered : List Node) (target : ℕ) (existing voters : List Text)
    → IsSelection ordered target voters
    → IsSelection ordered target (keep_existing ordered target existing voters)
unfolding keep_existing
keep_existing-IsSelection ordered target [] voters s = s
keep_existing-IsSelection ordered target (name ∷ existing) voters s =
    keep_existing-IsSelection ordered target existing _
      (elim (Bool-cases (not (any (has_name name) ordered) || nat_beq (length voters) target)) [
        | inl skip ↦ rw skip s
        | inr go ↦ elim (Bool-cases (seen name voters)) [
          | inl old ↦ rw (go, old) s
          | inr new ↦
              rw (go, new)
                (add-IsSelection ordered target voters name (ground arith) new (ground arith) s)
        ]
      ])

-- Filling keeps the selection when the nodes it takes from are among those that may vote.
pub fill_slots-IsSelection :
    (ordered : List Node) (target : ℕ) (nodes : List Node) (voters : List Text)
    → ((name : Text) → any (has_name name) nodes ≡ true → any (has_name name) ordered ≡ true)
    → IsSelection ordered target voters
    → IsSelection ordered target (fill_slots target nodes voters)
unfolding fill_slots
fill_slots-IsSelection ordered target [] voters within s = s
fill_slots-IsSelection ordered target (node ∷ nodes) voters within s =
    let later : (name : Text)
        → any (has_name name) nodes ≡ true
        → any (has_name name) ordered ≡ true =
      λ name h. within name (ground arith) in
    elim (Bool-cases (nat_beq (length voters) target)) [
      | inl full ↦ rw full s
      | inr room ↦ rw room (elim (Bool-cases (seen node.name voters)) [
        | inl old ↦ rw old (fill_slots-IsSelection ordered target nodes voters later s)
        | inr new ↦
            let votes = within node.name (ground (arith, ==_refl node.name)) in
            rw new (
              fill_slots-IsSelection ordered target nodes _ later
                (add-IsSelection ordered target voters node.name votes new room s))
      ])
    ]

-- What is a voter stays one while slots are filled.
fill_slots-seen :
    (target : ℕ) (nodes : List Node) (voters : List Text) (name : Text)
    → seen name voters ≡ true
    → seen name (fill_slots target nodes voters) ≡ true
unfolding fill_slots
fill_slots-seen target [] voters name h = h
fill_slots-seen target (node ∷ nodes) voters name h =
    elim (Bool-cases (nat_beq (length voters) target)) [
      | inl full ↦ rw full h
      | inr room ↦ rw room (
          fill_slots-seen target nodes _ name (elim (Bool-cases (seen node.name voters)) [
            | inl old ↦ rw old h
            | inr new ↦ rw new (ground (arith, any-snoc (λ v. v == name) voters node.name))
          ]))
    ]

abbrev with_voter : Node → List Text → List Text
with_voter node voters = if seen node.name voters then voters else voters ++ (node.name ∷ [])

with_voter-seen :
    (node : Node) (voters : List Text) → seen node.name (with_voter node voters) ≡ true
with_voter-seen node voters = elim (Bool-cases (seen node.name voters)) [
  | inl old ↦ rw old old
  | inr new ↦
      rw new (ground (arith, any-snoc (λ v. v == node.name) voters node.name, ==_refl node.name))
]

fill_slots_room :
    (target : ℕ) (node : Node) (nodes : List Node) (voters : List Text)
    → nat_beq (length voters) target ≡ false
    → fill_slots target nodes (with_voter node voters) ≡ fill_slots target (node ∷ nodes) voters
unfolding fill_slots
fill_slots_room target node nodes voters room = rw room refl

fill_slots_full :
    (target : ℕ) (node : Node) (nodes : List Node) (voters : List Text)
    → nat_beq (length voters) target ≡ true
    → length (fill_slots target (node ∷ nodes) voters) ≡ target
unfolding fill_slots
fill_slots_full target node nodes voters full = rw full (ground arith)

-- The voters are as many as asked for, or every node is one of them.
abbrev pub IsFilled : ℕ → List Node → List Text → Type 0
IsFilled target nodes voters =
    (length voters ≡ target) ⊎ (all (λ (n : Node). seen n.name voters) nodes ≡ true)

pub fill_slots-IsFilled :
    (target : ℕ) (nodes : List Node) (voters : List Text)
    → IsFilled target nodes (fill_slots target nodes voters)
fill_slots-IsFilled target [] voters = inr refl
fill_slots-IsFilled target (node ∷ nodes) voters =
    elim (Bool-cases (nat_beq (length voters) target)) [
      | inl full ↦ inl (fill_slots_full target node nodes voters full)
      | inr room ↦
          let next = with_voter node voters in
          let first = fill_slots-seen target nodes next node.name (with_voter-seen node voters) in
          subst (IsFilled target (node ∷ nodes)) (fill_slots_room target node nodes voters room)
            (elim (fill_slots-IsFilled target nodes next) [
              | inl e ↦ inl e
              | inr rest ↦ inr (ground (arith, first, rest))
            ])
    ]

pub none_seen : (nodes : List Node) → count (λ (n : Node). seen n.name []) nodes ≡ 0
none_seen [] = refl
none_seen (n ∷ ns) = ground (arith, none_seen ns)

==-swap : (a b : Text) → (a == b) ≡ (b == a)
==-swap a b =
    Bool-antisym (a == b) (b == a) (λ h. (==_iff b a).1 (sym (==→≡ a b h)))
      (λ h. (==_iff a b).1 (sym (==→≡ b a h)))

pub count-has_name :
    (v : Text) (nodes : List Node)
    → count (λ (n : Node). v == n.name) nodes ≡ count (has_name v) nodes
count-has_name v [] = refl
count-has_name v (n ∷ ns) = rw (==-swap v n.name, count-has_name v ns) refl

-- Nodes of different names are no more voters than there are names.
pub count-seen :
    (nodes : List Node) (voters : List Text)
    → ((name : Text) → count (has_name name) nodes ≤ 1)
    → count (λ (n : Node). seen n.name voters) nodes ≤ length voters
count-seen nodes [] distinct = ground (arith, none_seen nodes)
count-seen nodes (v ∷ voters) distinct = ground (
  arith,
  count-or (λ (n : Node). v == n.name) (λ (n : Node). seen n.name voters) nodes,
  count-has_name v nodes,
  count-seen nodes voters distinct,
  distinct v,
)
