-- ===== src/Tests.antt =====
-- Concrete runs of the modelled code, and the theorems at them.
mod Fixtures
mod Policy
mod Gateway
mod Workflow
mod Submission
mod View
mod Assertions
mod Cases
mod Conversations
mod Edge
mod Executions
