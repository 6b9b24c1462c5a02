-- ===== src/Conversations.antt =====
-- The conversations of apps/services/conversation-runtime/src: the protection of message texts, the
-- repository over its database, and the service.
pub mod Types
pub mod Protection
pub mod Database
pub mod Append
pub mod Repository
pub mod Service
pub mod Numbering
pub mod Run
pub mod Transcript
