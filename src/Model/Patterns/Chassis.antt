-- ===== src/Model/Patterns/Chassis.antt =====
-- What ParseRequestedChassis gives: the identifiers of the text, few, safe and distinct.
use proxmox_ovn.Prelude.{
  ℕ, ◌+◌, ◌≤◌, ◌≡◌, refl, sym, ap, ◌∙◌, Bool, true, false, not, List, [], ◌∷◌, ◌++◌, none, some,
  inl, inr, length, all, any, count, ltb, nat_beq, nat_beq_iff, Bool-cases, arith, ◌==◌, ==→≡,
  if◌then◌else◌,
}
use proxmox_ovn.Text.{Text, text_eq, is_empty, trim_space, split, add_to_first}
use proxmox_ovn.Model.Patterns.{safe_chassis_id, distinct_safe, parse_requested_chassis}

-- The texts, with the separator between them: strings.Join.
pub join : ℕ → List Text → Text
join sep [] = []
join sep (s ∷ []) = s
join sep (s ∷ t ∷ ts) = s ++ (sep ∷ join sep (t ∷ ts))

-- At most once in the list, and not at all if it was seen before.
distinct_counts :
    (seen parts : List Text) (p : Text)
    → distinct_safe seen parts ≡ true
    → count (λ q. q == p) parts + (if any (λ q. q == p) seen then 1 else 0) ≤ 1
unfolding distinct_safe
distinct_counts seen [] p h = ground arith
distinct_counts seen (x ∷ parts) p h = elim (Bool-cases (x == p)) [
  | inl e ↦
      ground
        (arith, distinct_counts (x ∷ seen) parts p, ap (λ z. any (λ q. q == z) seen) (==→≡ x p e))
  | inr other ↦ ground (arith, distinct_counts (x ∷ seen) parts p)
]

distinct_all :
    (seen parts : List Text) → distinct_safe seen parts ≡ true → all safe_chassis_id parts ≡ true
unfolding distinct_safe
distinct_all seen [] h = refl
distinct_all seen (x ∷ parts) h = ground (arith, distinct_all (x ∷ seen) parts)

split_cons : (sep : ℕ) (s : Text) → (p : Text) × (ps : List Text) × (split sep s ≡ p ∷ ps)
unfolding split add_to_first
split_cons sep [] = ([], [], refl)
split_cons sep (c ∷ s) = elim (Bool-cases (nat_beq c sep)) [
  | inl hit ↦ ([], split sep s, rw hit refl)
  | inr miss ↦ let (p, ps, e) = split_cons sep s in (c ∷ p, ps, rw (miss, e) refl)
]

join-add_to_first :
    (sep c : ℕ) (parts : List Text) → join sep (add_to_first c parts) ≡ c ∷ join sep parts
unfolding join add_to_first
join-add_to_first sep c [] = refl
join-add_to_first sep c (p ∷ []) = refl
join-add_to_first sep c (p ∷ q ∷ ps) = refl

join_empty_first :
    (sep : ℕ) (parts : List Text) (p : Text) (ps : List Text)
    → parts ≡ p ∷ ps
    → join sep ([] ∷ parts) ≡ sep ∷ join sep parts
unfolding join
join_empty_first sep parts p ps e = rw e refl

-- Joining what a split gives is the text again.
pub join-split : (sep : ℕ) (s : Text) → join sep (split sep s) ≡ s
unfolding split join
join-split sep [] = refl
join-split sep (c ∷ s) = elim (Bool-cases (nat_beq c sep)) [
  | inl hit ↦
      let (p, ps, e) = split_cons sep s in
      rw hit (
        join_empty_first sep (split sep s) p ps e
        ∙ ap (λ z. z ∷ join sep (split sep s)) (sym ((nat_beq_iff c sep).0 hit))
        ∙ ap (λ t. c ∷ t) (join-split sep s))
  | inr miss ↦ rw miss (join-add_to_first sep c (split sep s) ∙ ap (λ t. c ∷ t) (join-split sep s))
]

passed_tests :
    (empty spaced many distinct : Bool) (given parts : List Text)
    → (if empty
        then some []
        else if spaced
        then none
        else if many
        then none
        else if distinct
        then some given
        else none)
      ≡ some parts
    → empty ≡ false
    → (given ≡ parts) × (many ≡ false) × (distinct ≡ true)
passed_tests empty spaced many distinct given parts h e = (ground arith, ground arith, ground arith)

parsed_parts :
    (value : Text) (parts : List Text)
    → is_empty value ≡ false
    → parse_requested_chassis value ≡ some parts
    → (split b',' value ≡ parts) × (length parts ≤ 2) × (distinct_safe [] parts ≡ true)
unfolding parse_requested_chassis
parsed_parts value parts nonempty h =
    let (e, few, distinct) =
      passed_tests (is_empty value) (not (trim_space value == value))
        (ltb 2 (length (split b',' value))) (distinct_safe [] (split b',' value)) (split b',' value)
        parts h nonempty in
    (e, rw (← e) (ground arith), rw (← e) distinct)

-- What ParseRequestedChassis gives for a text that is not empty are at most two identifiers,
-- each of them safe, none of them twice, and joined by commas they are the text again.
pub parse_requested_chassis_parts :
    (value : Text) (parts : List Text)
    → is_empty value ≡ false
    → parse_requested_chassis value ≡ some parts
    → (length parts ≤ 2)
      × (all safe_chassis_id parts ≡ true)
      × ((p : Text) → count (λ q. q == p) parts ≤ 1)
      × (join b',' parts ≡ value)
parse_requested_chassis_parts value parts nonempty h =
    let (e, few, distinct) = parsed_parts value parts nonempty h in
    (
      few,
      distinct_all [] parts distinct,
      λ p. ground (arith, distinct_counts [] parts p distinct),
      rw (← e) (join-split b',' value),
    )
