-- ===== src/Ovsdb/Words/Policy.antt =====
-- The words of a security group rule, in internal/model/resources.go.
use proxmox_ovn.Prelude.{◌≡◌, refl, Bool, true, false, [], ◌==◌, if◌then◌else◌}
use proxmox_ovn.Text.{Text, text, text_eq, text_beq}
use proxmox_ovn.Model.Resource.{RuleDirection, EtherType, RuleAction}

unfoldable pub direction_text : RuleDirection → Text
direction_text RuleDirection.ingress = text "ingress"
direction_text RuleDirection.egress = text "egress"
direction_text (RuleDirection.other s) = s

unfoldable pub direction_of : Text → RuleDirection
direction_of s =
    if s == text "ingress"
    then RuleDirection.ingress
    else if s == text "egress"
    then RuleDirection.egress
    else RuleDirection.other s

-- A text that is no word of the enumeration.
abbrev pub direction_known : RuleDirection → Bool
direction_known (RuleDirection.other _) = false
direction_known _ = true

pub direction_of-direction_text :
    (x : RuleDirection) → direction_known x ≡ true → direction_of (direction_text x) ≡ x
unfolding direction_of direction_text text_beq
direction_of-direction_text (RuleDirection.other _) h = cc
direction_of-direction_text RuleDirection.ingress h = refl
direction_of-direction_text _ h = refl

unfoldable pub ethertype_text : EtherType → Text
ethertype_text EtherType.unset = []
ethertype_text EtherType.ipv4 = text "IPv4"
ethertype_text (EtherType.other s) = s

unfoldable pub ethertype_of : Text → EtherType
ethertype_of s =
    if s == []
    then EtherType.unset
    else if s == text "IPv4"
    then EtherType.ipv4
    else EtherType.other s

-- A text that is no word of the enumeration.
abbrev pub ethertype_known : EtherType → Bool
ethertype_known (EtherType.other _) = false
ethertype_known _ = true

pub ethertype_of-ethertype_text :
    (x : EtherType) → ethertype_known x ≡ true → ethertype_of (ethertype_text x) ≡ x
unfolding ethertype_of ethertype_text text_beq
ethertype_of-ethertype_text (EtherType.other _) h = cc
ethertype_of-ethertype_text EtherType.unset h = refl
ethertype_of-ethertype_text _ h = refl

unfoldable pub action_text : RuleAction → Text
action_text RuleAction.unset = []
action_text RuleAction.allow = text "allow"
action_text RuleAction.drop = text "drop"
action_text (RuleAction.other s) = s

unfoldable pub action_of : Text → RuleAction
action_of s =
    if s == []
    then RuleAction.unset
    else if s == text "allow"
    then RuleAction.allow
    else if s == text "drop"
    then RuleAction.drop
    else RuleAction.other s

-- A text that is no word of the enumeration.
abbrev pub action_known : RuleAction → Bool
action_known (RuleAction.other _) = false
action_known _ = true

pub action_of-action_text : (x : RuleAction) → action_known x ≡ true → action_of (action_text x) ≡ x
unfolding action_of action_text text_beq
action_of-action_text (RuleAction.other _) h = cc
action_of-action_text RuleAction.unset h = refl
action_of-action_text _ h = refl
