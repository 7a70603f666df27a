-- ===== src/Store/Outcomes/Updates.antt =====
-- Update tries its replacement out on the live table and puts the current row back: neither the
-- trial nor the defaults move a row to another key.
use proxmox_ovn.Prelude.{ℕ, ◌≡◌, refl, sym, ap, ◌∙◌, ℤ, some}
use proxmox_ovn.Text.{Text}
use proxmox_ovn.Platform.{Platform}
use proxmox_ovn.Model.Resource.{Resource, Body, body_kind, resource_kind, floating_ip}
use proxmox_ovn.Model.Defaults.{default_body, set_defaults, mark_pending}
use proxmox_ovn.Store.Table.{Table, lookup, put, has_key_iff}
use proxmox_ovn.Store.Table.Laws.{SameKey, lookup-has_key, put-restore}
use proxmox_ovn.Store.Idempotency.{Store}
use proxmox_ovn.Store.Create.{Written}
use proxmox_ovn.Store.Update.{prepare_update, restored, stamp_update}
use proxmox_ovn.Store.Outcomes.{Updated}

body_kind-default_body :
    (p : Platform) (id : Text) (b : Body) → body_kind (default_body p id b) ≡ body_kind b
unfolding default_body
body_kind-default_body p id (floating_ip f) = refl
body_kind-default_body p id _ = refl

pub body_kind-mark_pending : (b : Body) → body_kind (mark_pending b) ≡ body_kind b
unfolding mark_pending
body_kind-mark_pending (floating_ip f) = refl
body_kind-mark_pending _ = refl

pub prepare_update-SameKey : (p : Platform) (r : Resource) → SameKey (prepare_update p r) r
unfolding prepare_update set_defaults
prepare_update-SameKey p r =
    (body_kind-mark_pending _ ∙ body_kind-default_body p r.meta.id r.body, refl)

-- The row that a lookup finds has the key that was asked for.
pub found-SameKey :
    (t : Table) (r current : Resource)
    → lookup t (resource_kind r) r.meta.id ≡ some current
    → SameKey current r
found-SameKey t r current h = (has_key_iff _ _ current).0 (lookup-has_key t _ _ current h)

pub restored_same :
    (p : Platform) (t : Table) (r current : Resource)
    → lookup t (resource_kind r) r.meta.id ≡ some current
    → restored t (prepare_update p r) current ≡ t
unfolding restored
restored_same p t r current h =
    let (k, i) = found-SameKey t r current h in
    let (k', i') = prepare_update-SameKey p r in
    put-restore t (prepare_update p r) current (k' ∙ sym k, i' ∙ sym i)
      (ap (λ kind. lookup t kind current.meta.id) k ∙ ap (lookup t (resource_kind r)) i ∙ h)

-- What an update leaves is the table with the one row replaced.
pub Updated-table :
    (p : Platform) (now : ℕ) (r : Resource) (expected : ℤ) (s : Store) (w : Written)
    (u : Updated p now r expected s w)
    → w.store.resources ≡ put s.resources w.resource
Updated-table p now r expected s w u =
    u.table
    ∙ ap (λ t. put t (stamp_update now u.current.meta (prepare_update p r)))
        (restored_same p s.resources r u.current u.found_current)
    ∙ ap (put s.resources) (sym u.written)
