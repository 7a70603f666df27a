-- ===== src/Ovsdb.antt =====
-- The rows of the durable store in internal/ovsdbstore: how a resource is written to OVSDB and read
-- back (row.go and codec.go).
pub mod Outcome
pub mod Row
pub mod Words
pub mod Snapshot
pub mod Fields
pub mod Encode
pub mod Decode
pub mod Database
pub mod Metadata
pub mod Consistency
pub mod Held
pub mod Own
pub mod Unique
pub mod Keys
pub mod Distinct
pub mod Whole
pub mod Passes
pub mod Internal
pub mod Remembered
pub mod RoundTrip
