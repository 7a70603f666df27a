-- ===== src/Ovsdb/RoundTrip/Ranges.antt =====
-- The order of allocation pools in decodeIPRanges of internal/ovsdbstore/codec.go.
use proxmox_ovn.Prelude.{
  ◌≡◌, sym, subst, ap, ◌∙◌, inl, inr, true, false, Bool-cases, IsStrictOrder, ◌==◌, ==_iff, ==→≡,
}
use proxmox_ovn.Text.{Text, text_eq, text_lt}
use proxmox_ovn.Text.Order.{text_lt-IsStrictOrder}
use proxmox_ovn.Store.Uniqueness.Symmetry.{==_comm}
use proxmox_ovn.Model.Resource.{IpRange}
use proxmox_ovn.Ovsdb.Fields.{range_before}

range_before_asym : (a b : IpRange) → range_before a b ≡ true → range_before b a ≡ false
unfolding range_before
range_before_asym a b h = elim (Bool-cases (a.start == b.start)) [
  | inl same ↦
      rw (==_comm b.start a.start, same) (text_lt-IsStrictOrder.asym a.end b.end (rw same at h))
  | inr other ↦
      rw (==_comm b.start a.start, other)
        (text_lt-IsStrictOrder.asym a.start b.start (rw other at h))
]

range_before_total : (a b : IpRange) → range_before a b ≡ false → range_before b a ≡ false → a ≡ b
unfolding range_before
range_before_total a b h k = elim (Bool-cases (a.start == b.start)) [
  | inl same ↦
      let ends =
        text_lt-IsStrictOrder.total a.end b.end (rw same at h)
          (rw (==_comm b.start a.start, same) at k) in
      ap (λ s. record { start = s; end = a.end }) (==→≡ a.start b.start same)
      ∙ ap (λ e. record { start = b.start; end = e }) ends
  | inr other ↦
      let starts =
        text_lt-IsStrictOrder.total a.start b.start (rw other at h)
          (rw (==_comm b.start a.start, other) at k) in
      let same = (==_iff a.start b.start).1 starts in cc
]

irrefl : (s : Text) → text_lt s s ≡ false
irrefl s = elim (Bool-cases (text_lt s s)) [ inl h ↦ text_lt-IsStrictOrder.asym s s h | inr h ↦ h ]

unequal_lt : (s t : Text) → (s == t) ≡ false → text_lt s t ≡ false → text_lt t s ≡ true
unequal_lt s t other h = elim (Bool-cases (text_lt t s)) [
  | inl k ↦ k
  | inr k ↦ let same = (==_iff s t).1 (text_lt-IsStrictOrder.total s t h k) in cc
]

lt_before : (a b : IpRange) → text_lt a.start b.start ≡ true → range_before a b ≡ true
unfolding range_before
lt_before a b h = elim (Bool-cases (a.start == b.start)) [
  | inl same ↦
      let less : text_lt b.start b.start ≡ true =
        subst (λ s. text_lt s b.start ≡ true) (==→≡ a.start b.start same) h in
      let never = irrefl b.start in cc
  | inr other ↦ rw other h
]

range_before_between :
    (x a b : IpRange) → range_before x a ≡ true → range_before x b ≡ false → range_before b a ≡ true
unfolding range_before
range_before_between x a b h k = elim (Bool-cases (x.start == a.start)) [
  | inl xa ↦ elim (Bool-cases (x.start == b.start)) [
    | inl xb ↦
        let ba : b.start ≡ a.start = sym (==→≡ x.start b.start xb) ∙ ==→≡ x.start a.start xa in
        rw ((==_iff b.start a.start).1 ba)
          (text_lt-IsStrictOrder.between x.end a.end b.end (rw xa at h) (rw xb at k))
    | inr xb ↦ lt_before b a (
        subst (λ s. text_lt b.start s ≡ true) (==→≡ x.start a.start xa)
          (unequal_lt x.start b.start xb (rw xb at k)))
  ]
  | inr xa ↦
      let not_less : text_lt x.start b.start ≡ false = elim (Bool-cases (x.start == b.start)) [
        | inl xb ↦ subst (λ s. text_lt x.start s ≡ false) (==→≡ x.start b.start xb) (irrefl x.start)
        | inr xb ↦ rw xb at k
      ] in
      lt_before b a (text_lt-IsStrictOrder.between x.start a.start b.start (rw xa at h) not_less)
]

pub range_before-IsStrictOrder : IsStrictOrder range_before
range_before-IsStrictOrder = record {
  asym = range_before_asym;
  between = range_before_between;
  total = range_before_total;
}
