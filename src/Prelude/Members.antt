-- ===== src/Prelude/Members.antt =====
-- What stands in a list that was selected, cut, joined or sorted stood in the lists before.
use Prim.Native.Nat.{ℕ, zero, suc}
use mathlib.Core.Path.{◌≡◌, refl}
use mathlib.Core.Bool.{Bool, true}
use mathlib.Core.Logic.{◌⊎◌, inl, inr}
use mathlib.Core.List.{List, [], ◌∷◌, ◌++◌}
use proxmox_ovn.Prelude.Tests.{Bool-cases}
use proxmox_ovn.Prelude.Lists.{any, In, select, take, drop}
use proxmox_ovn.Prelude.Sort.{insert_sorted, sort}

module _ {A : Type 0} where
  pub In-select : (p : A → Bool) (xs : List A) (a : A) → In a (select p xs) → In a xs × (p a ≡ true)
  In-select p [] a m = elim m [ ]
  In-select p (x ∷ xs) a m = elim (Bool-cases (p x)) [
    | inl hit ↦
        let m' : (x ≡ a) ⊎ In a (select p xs) = rw hit at m in
        elim m' [
          | inl e ↦ (inl e, rw (← e) hit)
          | inr n ↦ let (n', h) = In-select p xs a n in (inr n', h)
        ]
    | inr miss ↦ let (n, h) = In-select p xs a (rw miss at m) in (inr n, h)
  ]

  pub In-take : (n : ℕ) (xs : List A) (a : A) → In a (take n xs) → In a xs
  In-take zero xs a m = elim m [ ]
  In-take (suc n) [] a m = elim m [ ]
  In-take (suc n) (x ∷ xs) a (inl e) = inl e
  In-take (suc n) (x ∷ xs) a (inr m) = inr (In-take n xs a m)

  pub In-drop : (n : ℕ) (xs : List A) (a : A) → In a (drop n xs) → In a xs
  In-drop zero xs a m = m
  In-drop (suc n) [] a m = elim m [ ]
  In-drop (suc n) (x ∷ xs) a m = inr (In-drop n xs a m)

  pub In-append : (xs ys : List A) (a : A) → In a (xs ++ ys) → In a xs ⊎ In a ys
  In-append [] ys a m = inr m
  In-append (x ∷ xs) ys a (inl e) = inl (inl e)
  In-append (x ∷ xs) ys a (inr m) = elim (In-append xs ys a m) [
    | inl n ↦ inl (inr n)
    | inr n ↦ inr n
  ]

  pub In-insert :
      (less : A → A → Bool) (x : A) (xs : List A) (a : A)
      → In a (insert_sorted less x xs)
      → (x ≡ a) ⊎ In a xs
  unfolding insert_sorted
  In-insert less x [] a m = m
  In-insert less x (y ∷ ys) a m = elim (Bool-cases (less y x)) [
    | inl later ↦
        let m' : (y ≡ a) ⊎ In a (insert_sorted less x ys) = rw later at m in
        elim m' [
          | inl e ↦ inr (inl e)
          | inr n ↦ elim (In-insert less x ys a n) [ inl e ↦ inl e | inr n' ↦ inr (inr n') ]
        ]
    | inr here ↦ let m' : (x ≡ a) ⊎ (y ≡ a) ⊎ In a ys = rw here at m in m'
  ]

  pub In-sort : (less : A → A → Bool) (xs : List A) (a : A) → In a (sort less xs) → In a xs
  unfolding sort
  In-sort less [] a m = m
  In-sort less (x ∷ xs) a m = elim (In-insert less x (sort less xs) a m) [
    | inl e ↦ inl e
    | inr n ↦ inr (In-sort less xs a n)
  ]

  pub select-In : (p : A → Bool) (xs : List A) (a : A) → In a xs → p a ≡ true → In a (select p xs)
  select-In p [] a m h = elim m [ ]
  select-In p (x ∷ xs) a (inl e) h = rw (e, h) (inl refl)
  select-In p (x ∷ xs) a (inr m) h = elim (Bool-cases (p x)) [
    | inl hit ↦ rw hit (inr (select-In p xs a m h))
    | inr miss ↦ rw miss (select-In p xs a m h)
  ]

  insert-In :
      (less : A → A → Bool) (x : A) (xs : List A) (a : A)
      → (x ≡ a) ⊎ In a xs
      → In a (insert_sorted less x xs)
  unfolding insert_sorted
  insert-In less x [] a m = m
  insert-In less x (y ∷ ys) a m = elim (Bool-cases (less y x)) [
    | inr here ↦ rw here m
    | inl later ↦ rw later (elim m [
      | inl e ↦ inr (insert-In less x ys a (inl e))
      | inr n ↦ elim n [ inl e ↦ inl e | inr n' ↦ inr (insert-In less x ys a (inr n')) ]
    ])
  ]

  pub sort-In : (less : A → A → Bool) (xs : List A) (a : A) → In a xs → In a (sort less xs)
  unfolding sort
  sort-In less [] a m = m
  sort-In less (x ∷ xs) a (inl e) = insert-In less x (sort less xs) a (inl e)
  sort-In less (x ∷ xs) a (inr m) = insert-In less x (sort less xs) a (inr (sort-In less xs a m))

  pub any-In : (p : A → Bool) (xs : List A) → any p xs ≡ true → (x : A) × In x xs × (p x ≡ true)
  any-In p [] h = cc
  any-In p (x ∷ xs) h = elim (Bool-cases (p x)) [
    | inl hit ↦ (x, inl refl, hit)
    | inr miss ↦ let (y, m, e) = any-In p xs (rw miss at h) in (y, inr m, e)
  ]

  pub In-any : (p : A → Bool) (xs : List A) (x : A) → In x xs → p x ≡ true → any p xs ≡ true
  In-any p [] x m h = elim m [ ]
  In-any p (y ∷ ys) x (inl e) h = rw (e, h) refl
  In-any p (y ∷ ys) x (inr m) h = elim (Bool-cases (p y)) [
    | inl hit ↦ rw hit refl
    | inr miss ↦ rw miss (In-any p ys x m h)
  ]
