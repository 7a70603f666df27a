-- ===== src/Prelude/Ranks.antt =====
-- The place of an element in a sorted list: how many elements are not behind it.
use Prim.Native.Nat.{ℕ, zero, suc, ◌+◌, ◌≤◌}
use mathlib.Core.Path.{◌≡◌, refl, sym, subst, ◌∙◌}
use mathlib.Core.Bool.{Bool, true, false, not}
use mathlib.Core.Logic.{inl, inr}
use mathlib.Core.List.{List, [], ◌∷◌}
use native.Mathlib.Omega.{arith}
use proxmox_ovn.Prelude.Tests.{Bool-cases, if◌then◌else◌}
use proxmox_ovn.Prelude.Lists.{In, count, drop, select}
use proxmox_ovn.Prelude.Members.{In-drop, In-insert}
use proxmox_ovn.Prelude.Sort.{insert_sorted, sort}

module _ {A : Type 0} (before : A → A → Bool) where
  -- Nothing stands behind an element that it comes before.
  IsOrdered : List A → Type 0
  IsOrdered [] = Unit
  IsOrdered (x ∷ xs) = ((y : A) → In y xs → before y x ≡ false) × IsOrdered xs

  module _ (asym : (a b : A) → before a b ≡ true → before b a ≡ false)
      (between : (x a b : A) → before x a ≡ true → before x b ≡ false → before b a ≡ true) where
    not_before : (x y z : A) → before x y ≡ false → before y z ≡ false → before x z ≡ false
    not_before x y z xy yz = elim (Bool-cases (before x z)) [
      | inr miss ↦ miss
      | inl hit ↦ let yz' = between x z y hit xy in cc
    ]

    insert_sorted-IsOrdered :
        (a : A) (xs : List A) → IsOrdered xs → IsOrdered (insert_sorted before a xs)
    unfolding insert_sorted IsOrdered
    insert_sorted-IsOrdered a [] h = ((λ y m. elim m [ ]), tt)
    insert_sorted-IsOrdered a (x ∷ xs) (behind, h) = elim (Bool-cases (before x a)) [
      | inl later ↦ rw later (
        (λ y m. elim (In-insert before a xs y m) [
          | inl e ↦ subst (λ z. before z x ≡ false) e (asym x a later)
          | inr n ↦ behind y n
        ]),
        insert_sorted-IsOrdered a xs h,
      )
      | inr here ↦ rw here (
        (λ y m. elim m [
          | inl e ↦ subst (λ z. before z a ≡ false) e here
          | inr n ↦ not_before y x a (behind y n) here
        ]),
        (behind, h),
      )
    ]

    sort-IsOrdered : (xs : List A) → IsOrdered (sort before xs)
    unfolding sort IsOrdered
    sort-IsOrdered [] = tt
    sort-IsOrdered (x ∷ xs) = insert_sorted-IsOrdered x (sort before xs) (sort-IsOrdered xs)

    irrefl : (a : A) → before a a ≡ false
    irrefl a = elim (Bool-cases (before a a)) [ inl h ↦ asym a a h | inr h ↦ h ]

    In-counted : (xs : List A) (a : A) → In a xs → 1 ≤ count (λ x. not (before a x)) xs
    In-counted [] a m = elim m [ ]
    In-counted (x ∷ xs) a (inl e) =
        let h : before a x ≡ false = subst (λ y. before a y ≡ false) (sym e) (irrefl a) in
        rw h (ground arith)
    In-counted (x ∷ xs) a (inr m) = ground (arith, In-counted xs a m)

    dropped-count :
        (n : ℕ) (xs : List A) (a : A)
        → IsOrdered xs
        → In a (drop n xs)
        → suc n ≤ count (λ x. not (before a x)) xs
    unfolding IsOrdered
    dropped-count zero xs a h m = In-counted xs a m
    dropped-count (suc n) [] a h m = elim m [ ]
    dropped-count (suc n) (x ∷ xs) a (behind, h) m =
        rw (behind a (In-drop n xs a m)) (ground (arith, dropped-count n xs a h m))

    count-insert_sorted :
        (p : A → Bool) (a : A) (xs : List A)
        → count p (insert_sorted before a xs) ≡ (if p a then 1 else 0) + count p xs
    unfolding insert_sorted
    count-insert_sorted p a [] = refl
    count-insert_sorted p a (x ∷ xs) = ground (arith, count-insert_sorted p a xs)

    count-sort : (p : A → Bool) (xs : List A) → count p (sort before xs) ≡ count p xs
    unfolding sort
    count-sort p [] = refl
    count-sort p (x ∷ xs) =
        count-insert_sorted p x (sort before xs) ∙ ground (arith, count-sort p xs)

    -- What stands behind the first n of a sorted list has more than n elements that are not
    -- behind it.
    pub drop-sort :
        (n : ℕ) (xs : List A) (a : A)
        → In a (drop n (sort before xs))
        → suc n ≤ count (λ x. not (before a x)) xs
    drop-sort n xs a m =
        subst (λ k. suc n ≤ k) (count-sort (λ x. not (before a x)) xs)
          (dropped-count n (sort before xs) a (sort-IsOrdered xs) m)

module _ {A : Type 0} where
  pub count-select :
      (chosen p q : A → Bool) (xs : List A)
      → ((x : A) → chosen x ≡ true → p x ≡ true → q x ≡ true)
      → count p (select chosen xs) ≤ count q xs
  count-select chosen p q [] h = ground arith
  count-select chosen p q (x ∷ xs) h =
      let rest = count-select chosen p q xs h in
      let this = h x in
      elim (Bool-cases (chosen x)) [
        | inl c ↦ elim (Bool-cases (p x)) [
          | inl px ↦ rw (c, px, this c px) (ground arith)
          | inr px ↦ rw (c, px) (ground arith)
        ]
        | inr c ↦ rw c (ground arith)
      ]
