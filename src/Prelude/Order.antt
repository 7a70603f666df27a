-- ===== src/Prelude/Order.antt =====
-- Sorting by a strict total order does not depend on the order of the list before.
use mathlib.Core.Path.{◌≡◌, refl, sym, ap, ◌∙◌}
use mathlib.Core.Bool.{Bool, true, false}
use mathlib.Core.Logic.{inl, inr}
use mathlib.Core.List.{List, [], ◌∷◌}
use proxmox_ovn.Prelude.Tests.{Bool-cases}
use proxmox_ovn.Prelude.Sort.{insert_sorted, sort}

-- A strict total order, with transitivity in the form that insertion needs.
pub record IsStrictOrder {A : Type 0} (before : A → A → Bool) : Type 0 where
  pub asym : (a b : A) → before a b ≡ true → before b a ≡ false
  pub between : (x a b : A) → before x a ≡ true → before x b ≡ false → before b a ≡ true
  pub total : (a b : A) → before a b ≡ false → before b a ≡ false → a ≡ b

module _ {A : Type 0} (before : A → A → Bool) (o : IsStrictOrder before) where
  later :
      (a x : A) (xs : List A)
      → before x a ≡ true
      → insert_sorted before a (x ∷ xs) ≡ x ∷ insert_sorted before a xs
  unfolding insert_sorted
  later a x xs h = rw h refl

  here : (a x : A) (xs : List A) → before x a ≡ false → insert_sorted before a (x ∷ xs) ≡ a ∷ x ∷ xs
  unfolding insert_sorted
  here a x xs h = rw h refl

  single : (a : A) → insert_sorted before a [] ≡ a ∷ []
  unfolding insert_sorted
  single a = refl

  insert-later :
      (a b : A) (xs : List A)
      → before a b ≡ true
      → insert_sorted before a (insert_sorted before b xs)
        ≡ insert_sorted before b (insert_sorted before a xs)
  insert-later a b [] h =
      rw (single a, single b, here a b [] (o.asym a b h), later b a [] h, single b) refl
  insert-later a b (x ∷ xs) h = elim (Bool-cases (before x a)) [
    | inl xa ↦
        let xb : before x b ≡ true = elim (Bool-cases (before x b)) [
          | inl xb ↦ xb
          | inr xb ↦ let swapped = o.between x a b xa xb in let not_swapped = o.asym a b h in cc
        ] in
        ap (insert_sorted before a) (later b x xs xb)
        ∙ later a x _ xa
        ∙ ap (λ ys. x ∷ ys) (insert-later a b xs h)
        ∙ sym (ap (insert_sorted before b) (later a x xs xa) ∙ later b x _ xb)
    | inr xa ↦ elim (Bool-cases (before x b)) [
      | inl xb ↦
          ap (insert_sorted before a) (later b x xs xb)
          ∙ here a x _ xa
          ∙ sym (
              ap (insert_sorted before b) (here a x xs xa)
              ∙ later b a _ h
              ∙ ap (λ ys. a ∷ ys) (later b x xs xb))
      | inr xb ↦
          ap (insert_sorted before a) (here b x xs xb)
          ∙ here a b _ (o.asym a b h)
          ∙ sym (
              ap (insert_sorted before b) (here a x xs xa)
              ∙ later b a _ h
              ∙ ap (λ ys. a ∷ ys) (here b x xs xb))
    ]
  ]

  insert-insert :
      (a b : A) (xs : List A)
      → insert_sorted before a (insert_sorted before b xs)
        ≡ insert_sorted before b (insert_sorted before a xs)
  insert-insert a b xs = elim (Bool-cases (before a b)) [
    | inl h ↦ insert-later a b xs h
    | inr h ↦ elim (Bool-cases (before b a)) [
      | inl k ↦ sym (insert-later b a xs k)
      | inr k ↦
          ap (λ z. insert_sorted before a (insert_sorted before z xs)) (sym (o.total a b h k))
          ∙ ap (λ z. insert_sorted before z (insert_sorted before a xs)) (o.total a b h k)
    ]
  ]

  sort-insert_sorted :
      (other : A → A → Bool) (a : A) (xs : List A)
      → sort before (insert_sorted other a xs) ≡ insert_sorted before a (sort before xs)
  unfolding insert_sorted sort
  sort-insert_sorted other a [] = refl
  sort-insert_sorted other a (x ∷ xs) = elim (Bool-cases (other x a)) [
    | inl h ↦ rw h (
        ap (insert_sorted before x) (sort-insert_sorted other a xs)
        ∙ insert-insert x a (sort before xs))
    | inr h ↦ rw h refl
  ]

  pub sort-sort :
      (other : A → A → Bool) (xs : List A) → sort before (sort other xs) ≡ sort before xs
  unfolding sort
  sort-sort other [] = refl
  sort-sort other (x ∷ xs) =
      sort-insert_sorted other x (sort other xs) ∙ ap (insert_sorted before x) (sort-sort other xs)
