-- ===== src/Store/Versions/Removals.antt =====
-- What Purge and Delete take away, and what they leave.
use proxmox_ovn.Prelude.{
  ◌≡◌, sym, ap, ◌∙◌, inl, inr, Bool, true, false, ◌&&◌, none, arith, ℤ, ℕ, ==_iff, ◌==◌, Bool-cases,
}
use proxmox_ovn.Text.{Text, text_eq}
use proxmox_ovn.Platform.{Platform}
use proxmox_ovn.Result.{ok, err, not_found, bind-ok, ok_inj}
use proxmox_ovn.Model.Kind.{Kind, kind_eq}
use proxmox_ovn.Model.Resource.{Resource}
use proxmox_ovn.Store.Table.{Table, lookup, has_key, has_key_iff}
use proxmox_ovn.Store.Table.Laws.{lookup-remove_self, lookup-remove_ne}
use proxmox_ovn.Store.Idempotency.{Store}
use proxmox_ovn.Store.Delete.{purge, delete, begin_delete}
use proxmox_ovn.Store.Read.{get}
use proxmox_ovn.Store.Outcomes.Deletes.{purge_outcome}
use proxmox_ovn.Store.Versions.{DiffersAt, AgreesElsewhere-DiffersAt, get_absent}

pub other_key :
    (kind k : Kind) (id i : Text) (x : Resource)
    → (k == kind && i == id) ≡ false
    → has_key k i x ≡ true
    → has_key kind id x ≡ false
other_key kind k id i x other hit = elim (Bool-cases (has_key kind id x)) [
  | inr miss ↦ miss
  | inl both ↦
      let (a, b) = (has_key_iff k i x).0 hit in
      let (c, d) = (has_key_iff kind id x).0 both in
      absurd (ground (arith, (==_iff k kind).1 (sym a ∙ c), (==_iff i id).1 (sym b ∙ d)))
]

-- After a Purge that succeeds, Get finds nothing under the key, and every other key of the
-- store has its former row.
pub get-purge :
    (done : Bool) (kind : Kind) (id : Text) (revision : ℤ) (s : Store) {s' : Store}
    → purge done kind id revision s ≡ ok s'
    → (get false kind id s' ≡ err not_found) × DiffersAt kind id none s.resources s'.resources
get-purge done kind id revision s {s'} h = elim (purge_outcome done kind id revision s h) [
  | inl (gone, same) ↦
      let gone' = ap (λ (x : Store). lookup x.resources kind id) same ∙ gone in
      (
        get_absent s' kind id gone',
        AgreesElsewhere-DiffersAt kind id none s.resources s'.resources gone'
            (λ k i other. ap (λ (x : Store). lookup x.resources k i) same),
      )
  | inr g ↦
      let gone' =
        ap (λ (x : Store). lookup x.resources kind id) g.after
        ∙ lookup-remove_self s.resources kind id in
      (
        get_absent s' kind id gone',
        AgreesElsewhere-DiffersAt kind id none s.resources s'.resources gone' (λ k i other.
            ap (λ (x : Store). lookup x.resources k i) g.after
            ∙ lookup-remove_ne s.resources kind k id i (λ x. other_key kind k id i x other)),
      )
]

-- After a Delete that succeeds, replayed or not, Get finds nothing under the key.
pub get-delete :
    (p : Platform) (done : Bool) (now : ℕ) (kind : Kind) (id : Text) (expected : ℤ) (key : Text)
    (s : Store) {c : Bool × Store}
    → delete p done now kind id expected key s ≡ ok c
    → get false kind id c.1 ≡ err not_found
unfolding delete
get-delete p done now kind id expected key s {c} h =
    let (w, _, rest) = bind-ok (begin_delete p done now kind id expected key s) _ h in
    let (s', purged, end) = bind-ok (purge done kind id w.resource.meta.revision w.store) _ rest in
    ap (λ (x : Bool × Store). get false kind id x.1) (sym (ok_inj end))
    ∙ (get-purge done kind id w.resource.meta.revision w.store purged).0
