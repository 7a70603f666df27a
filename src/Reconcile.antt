-- ===== src/Reconcile.antt =====
-- The reconciliation controller of internal/reconcile/reconcile.go over the in-memory store.
pub mod World
pub mod Calls
pub mod Work
pub mod Decisions
pub mod Controller
pub mod Audit
pub mod Keeps
pub mod Methods
pub mod Runs
pub mod Invariants
pub mod Histories
pub mod Quiet
pub mod Convergence
pub mod Trust
