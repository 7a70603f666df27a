-- ===== src/Store/Uniqueness.antt =====
-- Uniqueness over histories: no two resources of a kind have a unique field in common.
pub mod Bulk
pub mod Symmetry
pub mod Rows
pub mod Claims
pub mod Histories
