-- ===== src/Central/Placement/Counting.antt =====
-- Counting in lists that grow at the end or are sorted, for internal/central/placement.go.
use proxmox_ovn.Prelude.{
  suc, ◌+◌, ◌≤◌, ◌≡◌, refl, Bool, true, false, ◌&&◌, ◌||◌, List, [], ◌∷◌, ◌++◌, inl, inr, arith,
  length, any, all, count, insert_sorted, sort, Bool-cases, if◌then◌else◌,
}

module _ {A : Type 0} where
  pub length-snoc : (xs : List A) (x : A) → length (xs ++ (x ∷ [])) ≡ suc (length xs)
  length-snoc [] x = refl
  length-snoc (y ∷ xs) x = ground (arith, length-snoc xs x)

  pub any-snoc : (p : A → Bool) (xs : List A) (x : A) → any p (xs ++ (x ∷ [])) ≡ (any p xs || p x)
  any-snoc p [] x = ground arith
  any-snoc p (y ∷ xs) x = ground (arith, any-snoc p xs x)

  pub count-snoc :
      (p : A → Bool) (xs : List A) (x : A)
      → count p (xs ++ (x ∷ [])) ≡ count p xs + (if p x then 1 else 0)
  count-snoc p [] x = ground arith
  count-snoc p (y ∷ xs) x = ground (arith, count-snoc p xs x)

  pub count_none : (p : A → Bool) (xs : List A) → any p xs ≡ false → count p xs ≡ 0
  count_none p [] h = refl
  count_none p (x ∷ xs) h = ground (arith, count_none p xs)

  pub count-all : (p : A → Bool) (xs : List A) → all p xs ≡ true → count p xs ≡ length xs
  count-all p [] h = refl
  count-all p (x ∷ xs) h = ground (arith, count-all p xs)

  count-insert :
      (before : A → A → Bool) (p : A → Bool) (x : A) (xs : List A)
      → count p (insert_sorted before x xs) ≡ (if p x then 1 else 0) + count p xs
  unfolding insert_sorted
  count-insert before p x [] = refl
  count-insert before p x (y ∷ ys) = elim (Bool-cases (before y x)) [
    | inl later ↦ rw later (ground (arith, count-insert before p x ys))
    | inr here ↦ rw here refl
  ]

  -- A sorted list holds of each sort what the list held.
  pub count-sort :
      (before : A → A → Bool) (p : A → Bool) (xs : List A) → count p (sort before xs) ≡ count p xs
  unfolding sort
  count-sort before p [] = refl
  count-sort before p (x ∷ xs) =
      ground (arith, count-insert before p x (sort before xs), count-sort before p xs)

  count_everything : (xs : List A) → count (λ _. true) xs ≡ length xs
  count_everything [] = refl
  count_everything (x ∷ xs) = ground (arith, count_everything xs)

  pub length-sort : (before : A → A → Bool) (xs : List A) → length (sort before xs) ≡ length xs
  length-sort before xs =
      rw (← count_everything (sort before xs), ← count_everything xs)
        (count-sort before (λ _. true) xs)

  -- What holds of p or of q is counted by one of them.
  pub count-or :
      (p q : A → Bool) (xs : List A) → count (λ x. p x || q x) xs ≤ count p xs + count q xs
  count-or p q [] = ground arith
  count-or p q (x ∷ xs) = ground (arith, count-or p q xs)

  -- Nothing holds of both: the counts add up.
  pub count_disjoint :
      (p q : A → Bool) (xs : List A)
      → ((x : A) → (p x && q x) ≡ false)
      → count (λ x. p x || q x) xs ≡ count p xs + count q xs
  count_disjoint p q [] apart = refl
  count_disjoint p q (x ∷ xs) apart = ground (arith, count_disjoint p q xs apart, apart x)

  pub count_bounded : (p : A → Bool) (xs : List A) → count p xs ≤ length xs
  count_bounded p [] = ground arith
  count_bounded p (x ∷ xs) = ground (arith, count_bounded p xs)

  pub all-count : (p : A → Bool) (xs : List A) → length xs ≤ count p xs → all p xs ≡ true
  all-count p [] h = refl
  all-count p (x ∷ xs) h = ground (arith, all-count p xs, count_bounded p xs)

  pub count_some : (p : A → Bool) (xs : List A) → any p xs ≡ true → 1 ≤ count p xs
  count_some p [] h = cc
  count_some p (x ∷ xs) h = ground (arith, count_some p xs)

  any-insert :
      (before : A → A → Bool) (p : A → Bool) (x : A) (xs : List A)
      → any p (insert_sorted before x xs) ≡ (p x || any p xs)
  unfolding insert_sorted
  any-insert before p x [] = refl
  any-insert before p x (y ∷ ys) = elim (Bool-cases (before y x)) [
    | inl later ↦ rw later (ground (arith, any-insert before p x ys))
    | inr here ↦ rw here refl
  ]

  pub any-sort :
      (before : A → A → Bool) (p : A → Bool) (xs : List A) → any p (sort before xs) ≡ any p xs
  unfolding sort
  any-sort before p [] = refl
  any-sort before p (x ∷ xs) =
      ground (arith, any-insert before p x (sort before xs), any-sort before p xs)
