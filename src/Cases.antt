-- ===== src/Cases.antt =====
-- The human cases of apps/services/human-operations/src: their data, and the in-memory repository.
pub mod Types
pub mod Store
pub mod Life
pub mod Queries
