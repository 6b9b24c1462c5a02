-- ===== src/Journey.antt =====
-- The steps of a refund journey in apps/services/workflow-workers: the policy input, the preview,
-- the evidence snapshot, and the activities that the workflow calls.
pub mod Types
pub mod Input
pub mod Preview
pub mod Activities
