-- ===== src/Model/Kind.antt =====
-- internal/model/kind.go: the resource kinds, in the order of their names.
use proxmox_ovn.Prelude.{
  ℕ, ◌≡◌, refl, sym, ap, ◌∙◌, ◌↔◌, inl, inr, Bool-cases, some_inj, ==→≡, Bool, true, List, [], ◌∷◌,
  Option, none, some, nat_beq, nat_beq_iff, if◌then◌else◌, Eq, ◌==◌,
}
use proxmox_ovn.Text.{Text, text, to_lower, text_beq, text_eq}

pub data Kind : Type 0 where
  floating_ip ip_allocation network node operation port provider_network : Kind
  provider_segment router router_interface security_group security_group_rule subnet : Kind

-- The position of a kind among the sorted names; equal kinds are equal strings in the source.
abbrev pub position : Kind → ℕ
position floating_ip = 0
position ip_allocation = 1
position network = 2
position node = 3
position operation = 4
position port = 5
position provider_network = 6
position provider_segment = 7
position router = 8
position router_interface = 9
position security_group = 10
position security_group_rule = 11
position subnet = 12

abbrev pub kind_beq : Kind → Kind → Bool
kind_beq a b = nat_beq (position a) (position b)

abbrev at_position : ℕ → Kind
at_position n =
    if nat_beq n 0
    then floating_ip
    else if nat_beq n 1
    then ip_allocation
    else if nat_beq n 2
    then network
    else if nat_beq n 3
    then node
    else if nat_beq n 4
    then operation
    else if nat_beq n 5
    then port
    else if nat_beq n 6
    then provider_network
    else if nat_beq n 7
    then provider_segment
    else if nat_beq n 8
    then router
    else if nat_beq n 9
    then router_interface
    else if nat_beq n 10
    then security_group
    else if nat_beq n 11
    then security_group_rule
    else subnet

at_position_lem : (k : Kind) → at_position (position k) ≡ k
at_position_lem floating_ip = refl
at_position_lem _ = refl

pub kind_beq_iff : (a b : Kind) → (kind_beq a b ≡ true) ↔ (a ≡ b)
kind_beq_iff a b = (
  (λ h.
      sym (at_position_lem a)
      ∙ ap at_position ((nat_beq_iff (position a) (position b)).0 h)
      ∙ at_position_lem b),
  (λ e. (nat_beq_iff (position a) (position b)).1 (ap position e)),
)

instance abbrev pub kind_eq : Eq Kind
kind_eq = record { test = kind_beq; decides = kind_beq_iff }

-- Kind.String
unfoldable pub string : Kind → Text
string network = text "network"
string subnet = text "subnet"
string port = text "port"
string ip_allocation = text "ip-allocation"
string router = text "router"
string router_interface = text "router-interface"
string floating_ip = text "floating-ip"
string provider_network = text "provider-network"
string provider_segment = text "provider-segment"
string security_group = text "security-group"
string security_group_rule = text "security-group-rule"
string node = text "node"
string operation = text "operation"

-- Kind.Collection, the map kindToCollection
unfoldable pub collection : Kind → Text
collection network = text "networks"
collection subnet = text "subnets"
collection port = text "ports"
collection ip_allocation = text "ip-allocations"
collection router = text "routers"
collection router_interface = text "router-interfaces"
collection floating_ip = text "floating-ips"
collection provider_network = text "provider-networks"
collection provider_segment = text "provider-segments"
collection security_group = text "security-groups"
collection security_group_rule = text "security-group-rules"
collection node = text "nodes"
collection operation = text "operations"

-- Kinds: every kind, sorted by name
abbrev pub kinds : List Kind
kinds =
    floating_ip ∷ ip_allocation ∷ network ∷ node ∷ operation ∷ port ∷ provider_network
    ∷ provider_segment ∷ router ∷ router_interface ∷ security_group ∷ security_group_rule ∷ subnet
    ∷ []

-- The inverse map collectionToKind.
find_collection : List Kind → Text → Option Kind
find_collection [] value = none
find_collection (k ∷ ks) value = if collection k == value then some k else find_collection ks value

-- ParseCollection
unfoldable pub parse_collection : Text → Option Kind
unfolding find_collection
parse_collection value = find_collection kinds (to_lower value)

find-collection : (k : Kind) → find_collection kinds (collection k) ≡ some k
unfolding find_collection collection text_beq
find-collection floating_ip = refl
find-collection _ = refl

found_collection :
    (ks : List Kind) (value : Text) (k : Kind)
    → find_collection ks value ≡ some k
    → value ≡ collection k
unfolding find_collection
found_collection [] value k h = cc
found_collection (x ∷ ks) value k h = elim (Bool-cases (collection x == value)) [
  | inl hit ↦
      let same : x ≡ k = some_inj (rw hit at h) in
      sym (==→≡ (collection x) value hit) ∙ ap collection same
  | inr miss ↦ found_collection ks value k (rw miss at h)
]

-- ParseCollection reads a text as a kind exactly when the text is the collection name of that
-- kind, in any mix of capital and small letters; so no two kinds share a name.
pub parse_collection-collection :
    (value : Text) (k : Kind) → (parse_collection value ≡ some k) ↔ (to_lower value ≡ collection k)
unfolding parse_collection
parse_collection-collection value k = (
  found_collection kinds (to_lower value) k,
  (λ e. ap (find_collection kinds) e ∙ find-collection k),
)
