-- ===== src/Policy.antt =====
-- The refund policy of apps/services/workflow-workers: what a refund request is decided on.
pub mod Types
pub mod Canonical
pub mod Rules
pub mod Evaluate
