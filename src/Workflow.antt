-- ===== src/Workflow.antt =====
-- The refund workflow of apps/services/workflow-workers/src/refund-workflow.ts as a state machine:
-- one point for each `await`, one step for each resolved activity, timer or signal.
pub mod Types
pub mod History
pub mod Budget
pub mod Settle
pub mod Offer
pub mod Intake
pub mod Machine
