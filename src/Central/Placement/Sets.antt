-- ===== src/Central/Placement/Sets.antt =====
-- What sameSet of internal/central/placement.go decides.
use proxmox_ovn.Prelude.{
  ℕ, ◌+◌, ◌-◌, ◌≤◌, ◌≡◌, ◌↔◌, refl, ap, true, List, [], ◌∷◌, inl, inr, arith, nat_beq, length,
  count, ◌==◌, if◌then◌else◌, Bool-cases, ==→≡, ==_refl,
}
use proxmox_ovn.Text.{Text, text_eq}
use proxmox_ovn.Central.Placement.{increment_all, decrement_all, same_set}

increment_all_counts :
    (a : List Text) (set : Text → ℕ) (x : Text)
    → increment_all set a x ≡ count (λ v. v == x) a + set x
increment_all_counts [] set x = ground arith
increment_all_counts (v ∷ a) set x =
    ground (arith, increment_all_counts a (λ y. (if v == y then 1 else 0) + set y) x)

decrement_all_within :
    (b : List Text) (set : Text → ℕ) (x : Text)
    → decrement_all set b ≡ true
    → count (λ v. v == x) b ≤ set x
decrement_all_within [] set x h = ground arith
decrement_all_within (v ∷ b) set x h = elim (Bool-cases (v == x)) [
  | inl same ↦ ground (
    arith,
    ==→≡ v x same,
    ap set (==→≡ v x same),
    decrement_all_within b (λ y. set y - (if v == y then 1 else 0)) x,
  )
  | inr differs ↦ ground (arith, decrement_all_within b (λ y. set y - (if v == y then 1 else 0)) x)
]

decrement_all_enough :
    (b : List Text) (set : Text → ℕ)
    → ((x : Text) → count (λ v. v == x) b ≤ set x)
    → decrement_all set b ≡ true
decrement_all_enough [] set h = refl
decrement_all_enough (v ∷ b) set h =
    let rest =
      decrement_all_enough b (λ y. set y - (if v == y then 1 else 0)) (λ x. ground (arith, h x)) in
    ground (arith, rest, h v, ==_refl v)

-- sameSet answers true exactly for lists of the same length of which the first holds every text
-- at least as often as the second.
pub same_set_iff :
    (a b : List Text)
    → (same_set a b ≡ true)
      ↔ ((length a ≡ length b) × ((x : Text) → count (λ v. v == x) b ≤ count (λ v. v == x) a))
unfolding same_set
same_set_iff a b = (
  λ h. elim (Bool-cases (nat_beq (length a) (length b))) [
    | inr differ ↦ let h' = rw differ at h in cc
    | inl same ↦
        let h' = rw same at h in
        (
          ground arith,
          λ x. ground (arith, decrement_all_within b _ x h', increment_all_counts a (λ y. 0) x),
        )
  ],
  λ h.
      let (e, enough) = h in
      let spent =
        decrement_all_enough b (increment_all (λ y. 0) a)
          (λ x. ground (arith, enough x, increment_all_counts a (λ y. 0) x)) in
      ground (arith, spent, e),
)
