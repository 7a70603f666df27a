-- ===== src/Store/Leases.antt =====
-- What the leases of operations promise: exclusion, ownership and the fence of a target.
pub mod Exclusion
pub mod Fence
pub mod Owners
