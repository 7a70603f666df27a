-- ===== src/Text/Order.antt =====
-- Go's order on strings is strict and total.
use proxmox_ovn.Prelude.{
  ◌≡◌, refl, ap, ◌∙◌, true, false, [], ◌∷◌, arith, inl, inr, Bool-cases, IsStrictOrder,
}
use proxmox_ovn.Text.{Text, text_lt}

text_lt_asym : (s t : Text) → text_lt s t ≡ true → text_lt t s ≡ false
unfolding text_lt
text_lt_asym [] (d ∷ t) h = refl
text_lt_asym [] [] h = cc
text_lt_asym (c ∷ s) [] h = cc
text_lt_asym (c ∷ s) (d ∷ t) h = elim (Bool-cases (text_lt s t)) [
  | inl lt ↦ let gt = text_lt_asym s t lt in ground arith
  | inr ge ↦ ground arith
]

text_lt_between : (x a b : Text) → text_lt x a ≡ true → text_lt x b ≡ false → text_lt b a ≡ true
unfolding text_lt
text_lt_between [] [] b h k = cc
text_lt_between [] (c ∷ a) [] h k = refl
text_lt_between [] (c ∷ a) (d ∷ b) h k = cc
text_lt_between (e ∷ x) [] b h k = cc
text_lt_between (e ∷ x) (c ∷ a) [] h k = refl
text_lt_between (e ∷ x) (c ∷ a) (d ∷ b) h k = elim (Bool-cases (text_lt x a)) [
  | inl xa ↦ elim (Bool-cases (text_lt x b)) [
    | inl xb ↦ ground arith
    | inr xb ↦ let ba = text_lt_between x a b xa xb in ground arith
  ]
  | inr xa ↦ ground arith
]

text_lt_total : (s t : Text) → text_lt s t ≡ false → text_lt t s ≡ false → s ≡ t
unfolding text_lt
text_lt_total [] [] h k = refl
text_lt_total [] (d ∷ t) h k = cc
text_lt_total (c ∷ s) [] h k = cc
text_lt_total (c ∷ s) (d ∷ t) h k =
    let same : c ≡ d = ground arith in
    let tail : s ≡ t = text_lt_total s t (ground arith) (ground arith) in
    ap (λ x. x ∷ s) same ∙ ap (λ u. d ∷ u) tail

pub text_lt-IsStrictOrder : IsStrictOrder text_lt
text_lt-IsStrictOrder = record {
  asym = text_lt_asym;
  between = text_lt_between;
  total = text_lt_total;
}
