-- ===== src/Central.antt =====
-- The planning of the central database's voters, internal/central/placement.go.
pub mod Placement
