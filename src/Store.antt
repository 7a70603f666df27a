-- ===== src/Store.antt =====
-- internal/controlstore: the resource store in memory. Its state is the table of resources and
-- the record of answered idempotency keys; the methods are in the modules below. The lock of the
-- source makes each method one step, so a method is a function of the state.
pub mod Table
pub mod References
pub mod Unique
pub mod Referrers
pub mod Idempotency
pub mod Create
pub mod Update
pub mod Delete
pub mod Lease
pub mod Retention
pub mod Read
pub mod Reconciled
pub mod Outcomes
pub mod History
pub mod Integrity
pub mod Replay
pub mod Uniqueness
pub mod Versions
pub mod Validity
pub mod Everywhere
pub mod Leases
