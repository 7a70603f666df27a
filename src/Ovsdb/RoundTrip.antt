-- ===== src/Ovsdb/RoundTrip.antt =====
-- The round trip of encodeResource and decodeResource in internal/ovsdbstore/codec.go.
pub mod Ranges
pub mod Parts
pub mod Lists
pub mod Plain
pub mod Networks
pub mod Routers
pub mod Policy
pub mod Whole
