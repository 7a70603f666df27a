-- ===== src/Store/Integrity/Writes.antt =====
-- How single writes and removals keep a table closed.
use proxmox_ovn.Prelude.{
  ◌≡◌, refl, sym, ap, ◌∙◌, inl, inr, Bool, true, false, ◌&&◌, [], ◌∷◌, arith, In, Bool-cases,
  and-true, ◌==◌, ==→≡, ==_iff,
}
use proxmox_ovn.Text.{Text, text_eq}
use proxmox_ovn.Model.Kind.{Kind, kind_eq}
use proxmox_ovn.Model.Resource.{Resource, Body, operation, node, floating_ip, Operation, Node}
use proxmox_ovn.Model.Defaults.{mark_pending, mark_floating_reconciled}
use proxmox_ovn.Store.Table.{Table, put, remove, has_key, has_key_iff}
use proxmox_ovn.Store.Table.Laws.{found-put, In-put, In-remove, lookup-remove_ne}
use proxmox_ovn.Store.Referrers.{references, has_referrer}
use proxmox_ovn.Store.Integrity.{Resolves, IsClosed}

-- A write of a resource that resolves keeps the table closed.
pub put-IsClosed : (t : Table) (r : Resource) → IsClosed t → Resolves t r.body → IsClosed (put t r)
put-IsClosed t r c h = record {
  resolves = λ x m k i nonempty ref. found-put t r k i (elim (In-put t r x m) [
    | inl e ↦ h k i nonempty (rw e at ref)
    | inr n ↦ c.resolves x n k i nonempty ref
  ]);
}

-- No one references a key that is not met by any other entry.
unreferenced :
    (t : Table) (k : Kind) (i : Text) (x : Resource)
    → has_referrer t k i ≡ false
    → In x t
    → has_key k i x ≡ false
    → references x.body k i ≡ false
unfolding has_referrer
unreferenced [] k i x h m miss = elim m [ ]
unreferenced (y ∷ t) k i x h (inl e) miss =
    ground (arith, ap (has_key k i) e, ap (λ (r : Resource). references r.body k i) e)
unreferenced (y ∷ t) k i x h (inr m) miss = unreferenced t k i x (ground arith) m miss

-- An entry that is met under two keys makes them one.
keys_differ :
    (j k : Kind) (l i : Text)
    → (j == k && l == i) ≡ false
    → (y : Resource) → has_key j l y ≡ true
    → has_key k i y ≡ false
keys_differ j k l i ne y h = elim (Bool-cases (has_key k i y)) [
  | inr miss ↦ miss
  | inl hit ↦
      let a = (has_key_iff j l y).0 h in
      let b = (has_key_iff k i y).0 hit in cc (ne, both (sym a.0 ∙ b.0) (sym a.1 ∙ b.1))
]
  where
    both : j ≡ k → l ≡ i → (j == k && l == i) ≡ true
    both e f = ground (arith, (==_iff j k).1 e, (==_iff l i).1 f)

-- A removal of what nothing references keeps the table closed.
pub remove-IsClosed :
    (t : Table) (k : Kind) (i : Text)
    → IsClosed t
    → has_referrer t k i ≡ false
    → IsClosed (remove t k i)
remove-IsClosed t k i c free = record {
  resolves = λ x m j l nonempty ref.
      let (n, miss) = In-remove t k i x m in
      elim (Bool-cases (j == k && l == i)) [
        | inl same ↦
            let (ej, el) = and-true (j == k) (l == i) same in
            cc (unreferenced t k i x free n miss, rw (==→≡ j k ej, ==→≡ l i el) at ref)
        | inr other ↦
            rw (lookup-remove_ne t k j i l (keys_differ j k l i other))
              (c.resolves x n j l nonempty ref)
      ];
}

-- Operations and nodes name nothing, so their rows always resolve.
pub operation-Resolves : (t : Table) (o : Operation) → Resolves t (operation o)
unfolding references
operation-Resolves t o k i nonempty ref = cc

pub node-Resolves : (t : Table) (n : Node) → Resolves t (node n)
unfolding references
node-Resolves t n k i nonempty ref = cc

-- The status of a floating IP is no name.
pub references-mark_pending :
    (b : Body) (k : Kind) (i : Text) → references (mark_pending b) k i ≡ references b k i
unfolding mark_pending references
references-mark_pending (floating_ip f) k i = refl
references-mark_pending _ k i = refl

pub references-mark_floating :
    (failed : Bool) (b : Body) (k : Kind) (i : Text)
    → references (mark_floating_reconciled failed b) k i ≡ references b k i
unfolding mark_floating_reconciled references
references-mark_floating failed (floating_ip f) k i = refl
references-mark_floating failed _ k i = refl

-- A body that names the same resolves as well.
pub Resolves-same :
    (t : Table) (b c : Body)
    → ((k : Kind) (i : Text) → references c k i ≡ references b k i)
    → Resolves t b
    → Resolves t c
Resolves-same t b c same h k i nonempty ref = h k i nonempty (rw (same k i) at ref)
