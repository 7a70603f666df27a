-- ===== src/Store/Integrity.antt =====
-- Referential integrity: every resource that another one names is in the table.
pub mod Rewrites
pub mod Checked
pub mod Resolved
pub mod Writes
pub mod Histories
use proxmox_ovn.Prelude.{◌≡◌, Bool, true, false, Option, none, some, In}
use proxmox_ovn.Text.{Text, is_empty}
use proxmox_ovn.Model.Kind.{Kind}
use proxmox_ovn.Model.Resource.{Resource, Body}
use proxmox_ovn.Store.Table.{Table, lookup, found}
use proxmox_ovn.Store.Referrers.{references}

-- Whatever the body names is found; a name that is left empty names nothing.
abbrev pub Resolves : Table → Body → Type 0
Resolves t b =
    (k : Kind) (i : Text)
    → is_empty i ≡ false
    → references b k i ≡ true
    → found (lookup t k i) ≡ true

-- No entry of the table names a resource that is not there.
pub record IsClosed (t : Table) : Type 0 where
  pub resolves : (r : Resource) → In r t → Resolves t r.body
