-- ===== src/Assertions.antt =====
-- The signed assertions with which the services vouch for a caller: the schemas of their claims, and
-- the pairs of a signer and a verifier.
pub mod Json
pub mod Jose
pub mod Workflow
pub mod Context
pub mod Service
