-- ===== src/Ovsdb/Keys/Parts.antt =====
-- Equal fields give equal keys of uniqueKeys, and where a key stands in the lists of keys.
use proxmox_ovn.Prelude.{
  ◌≡◌, refl, sym, ap, subst, ◌⊎◌, inl, inr, Bool, true, false, ◌&&◌, ◌++◌, List, [], ◌∷◌, map, In,
  Option, none, some, and-true, ==→≡, ◌==◌, int_eq,
}
use proxmox_ovn.Text.{Text, text_eq}
use proxmox_ovn.Model.Kind.{Kind, kind_eq}
use proxmox_ovn.Model.Resource.{Body, ProviderNetworkType}
use proxmox_ovn.Store.Unique.{field_if, network_type_beq, target_beq}
use proxmox_ovn.Ovsdb.Words.{network_type_text, target_kind_text}
use proxmox_ovn.Ovsdb.Unique.{joined, concatenated, unique_keys, overlaps}

abbrev pub HaveCommon : List Text → List Text → Type 0
HaveCommon ks ls = (k : Text) × In k ks × In k ls

-- No conflict, or what the snapshot's check would find.
abbrev pub IsFound : Text → Body → Body → Type 0
IsFound field left right =
    (field ≡ []) ⊎ (overlaps left right ≡ true) ⊎ HaveCommon (unique_keys left) (unique_keys right)

pub field-cases :
    {S : Type 0} (b : Bool) (field rest : Text)
    → (b ≡ true → S)
    → ((rest ≡ []) ⊎ S)
    → (field_if b field rest ≡ []) ⊎ S
field-cases true field rest hit miss = inr (hit refl)
field-cases false field rest hit miss = miss

-- Fields that are equal give equal keys.
pub same : (p a b : Text) → (a == b) ≡ true → p ++ b ≡ p ++ a
same p a b h = ap (λ x. p ++ x) (sym (==→≡ a b h))

pub same_pair : (p a b c d : Text) → (a == b && c == d) ≡ true → p ++ joined b d ≡ p ++ joined a c
same_pair p a b c d h =
    let (e, e') = and-true (a == b) (c == d) h in rw (==→≡ a b e, ==→≡ c d e') refl

pub network_type_same :
    (a b : ProviderNetworkType)
    → network_type_beq a b ≡ true
    → network_type_text a ≡ network_type_text b
unfolding network_type_beq network_type_text
network_type_same ProviderNetworkType.flat ProviderNetworkType.flat h = refl
network_type_same ProviderNetworkType.vlan ProviderNetworkType.vlan h = refl
network_type_same (ProviderNetworkType.other s) (ProviderNetworkType.other t) h = ==→≡ s t h
network_type_same ProviderNetworkType.flat ProviderNetworkType.vlan h = cc
network_type_same ProviderNetworkType.flat (ProviderNetworkType.other t) h = cc
network_type_same ProviderNetworkType.vlan ProviderNetworkType.flat h = cc
network_type_same ProviderNetworkType.vlan (ProviderNetworkType.other t) h = cc
network_type_same (ProviderNetworkType.other s) ProviderNetworkType.flat h = cc
network_type_same (ProviderNetworkType.other s) ProviderNetworkType.vlan h = cc

pub target_same :
    (a b : Option Kind) → target_beq a b ≡ true → target_kind_text a ≡ target_kind_text b
unfolding target_beq
target_same none none h = refl
target_same (some a) (some b) h = ap (λ k. target_kind_text (some k)) (==→≡ a b h)
target_same none (some b) h = cc
target_same (some a) none h = cc

pub In-left : (xs ys : List Text) (k : Text) → In k xs → In k (xs ++ ys)
In-left [] ys k m = elim m [ ]
In-left (x ∷ xs) ys k (inl e) = inl e
In-left (x ∷ xs) ys k (inr m) = inr (In-left xs ys k m)

pub In-right : (xs ys : List Text) (k : Text) → In k ys → In k (xs ++ ys)
In-right [] ys k m = m
In-right (x ∷ xs) ys k m = inr (In-right xs ys k m)

pub In-concatenated :
    {A : Type 0} (f : A → List Text) (xs : List A) (x : A) (k : Text)
    → In x xs
    → In k (f x)
    → In k (concatenated (map f xs))
In-concatenated f [] x k m n = elim m [ ]
In-concatenated f (y ∷ xs) x k (inl e) n =
    In-left (f y) (concatenated (map f xs)) k (subst (λ z. In k (f z)) (sym e) n)
In-concatenated f (y ∷ xs) x k (inr m) n =
    In-right (f y) (concatenated (map f xs)) k (In-concatenated f xs x k m n)
