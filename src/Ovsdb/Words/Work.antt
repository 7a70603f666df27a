-- ===== src/Ovsdb/Words/Work.antt =====
-- The roles of a node, the status and target of an operation, and the state of a resource.
use proxmox_ovn.Prelude.{
  ◌≡◌, refl, Bool, true, false, List, [], ◌∷◌, Option, none, some, ◌==◌, if◌then◌else◌,
}
use proxmox_ovn.Text.{Text, text, text_eq, text_beq}
use proxmox_ovn.Ovsdb.Outcome.{Outcome, done, failed, malformed}
use proxmox_ovn.Model.Kind.{Kind, kinds, string}
use proxmox_ovn.Model.Resource.{ResourceState, NodeRole, OperationStatus}

unfoldable pub role_text : NodeRole → Text
role_text NodeRole.compute = text "compute"
role_text NodeRole.gateway = text "gateway"
role_text NodeRole.central = text "central"
role_text (NodeRole.other s) = s

unfoldable pub role_of : Text → NodeRole
role_of s =
    if s == text "compute"
    then NodeRole.compute
    else if s == text "gateway"
    then NodeRole.gateway
    else if s == text "central"
    then NodeRole.central
    else NodeRole.other s

-- A text that is no word of the enumeration.
abbrev pub role_known : NodeRole → Bool
role_known (NodeRole.other _) = false
role_known _ = true

pub role_of-role_text : (x : NodeRole) → role_known x ≡ true → role_of (role_text x) ≡ x
unfolding role_of role_text text_beq
role_of-role_text (NodeRole.other _) h = cc
role_of-role_text NodeRole.compute h = refl
role_of-role_text _ h = refl

unfoldable pub operation_status_text : OperationStatus → Text
operation_status_text OperationStatus.unset = []
operation_status_text OperationStatus.queued = text "queued"
operation_status_text OperationStatus.running = text "running"
operation_status_text OperationStatus.succeeded = text "succeeded"
operation_status_text OperationStatus.failed = text "failed"
operation_status_text (OperationStatus.other s) = s

unfoldable pub operation_status_of : Text → OperationStatus
operation_status_of s =
    if s == []
    then OperationStatus.unset
    else if s == text "queued"
    then OperationStatus.queued
    else if s == text "running"
    then OperationStatus.running
    else if s == text "succeeded"
    then OperationStatus.succeeded
    else if s == text "failed"
    then OperationStatus.failed
    else OperationStatus.other s

-- A text that is no word of the enumeration.
abbrev pub operation_status_known : OperationStatus → Bool
operation_status_known (OperationStatus.other _) = false
operation_status_known _ = true

pub operation_status_of-operation_status_text :
    (x : OperationStatus)
    → operation_status_known x ≡ true
    → operation_status_of (operation_status_text x) ≡ x
unfolding operation_status_of operation_status_text text_beq
operation_status_of-operation_status_text (OperationStatus.other _) h = cc
operation_status_of-operation_status_text OperationStatus.unset h = refl
operation_status_of-operation_status_text _ h = refl

-- The state of a resource; the four states that may be stored are read back.
unfoldable pub state_text : ResourceState → Text
state_text ResourceState.unset = []
state_text ResourceState.pending = text "pending"
state_text ResourceState.ready = text "ready"
state_text ResourceState.error = text "error"
state_text ResourceState.deleting = text "deleting"

unfoldable pub state_of : Text → Outcome ResourceState
state_of s =
    if s == text "pending"
    then done ResourceState.pending
    else if s == text "ready"
    then done ResourceState.ready
    else if s == text "error"
    then done ResourceState.error
    else if s == text "deleting"
    then done ResourceState.deleting
    else failed malformed

abbrev pub is_stored_state : ResourceState → Bool
is_stored_state ResourceState.unset = false
is_stored_state _ = true

pub state_of-state_text :
    (x : ResourceState) → is_stored_state x ≡ true → state_of (state_text x) ≡ done x
unfolding state_of state_text text_beq
state_of-state_text ResourceState.unset h = cc
state_of-state_text ResourceState.pending h = refl
state_of-state_text _ h = refl

-- model.Kind(text), `none` where the text names no kind; `none` is written as "".
find_kind : List Kind → Text → Option Kind
find_kind [] s = none
find_kind (k ∷ ks) s = let rest = find_kind ks s in if string k == s then some k else rest

unfoldable pub target_kind_of : Text → Option Kind
unfolding find_kind
target_kind_of s = find_kind kinds s

unfoldable pub target_kind_text : Option Kind → Text
target_kind_text none = []
target_kind_text (some k) = string k

pub target_kind_of-target_kind_text : (k : Option Kind) → target_kind_of (target_kind_text k) ≡ k
unfolding target_kind_of target_kind_text find_kind string text_beq
target_kind_of-target_kind_text none = refl
target_kind_of-target_kind_text (some Kind.floating_ip) = refl
target_kind_of-target_kind_text (some _) = refl
