-- ===== src/Examples.antt =====
-- Small runs of the store, and the theorems applied to them.
mod Data
mod Runs
mod Writes
mod Operations
mod Addresses
mod Placement
mod Reconcile
mod Rows
mod Snapshots
