-- ===== src/Model.antt =====
-- The data model (internal/model): resource kinds, metadata, the thirteen resource types, their
-- validation and their defaults.
pub mod Kind
pub mod Ip
pub mod Patterns
pub mod Validation
pub mod Defaults
pub mod Resource
