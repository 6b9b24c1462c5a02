-- ===== src/Conversations/Types.antt =====
-- The data of apps/services/conversation-runtime/src/conversation-service.ts and
-- message-protection.ts, and the errors that the service and its repository throw.
use customer_service_os_lite.Common.{ℕ, Option, List, String}
use customer_service_os_lite.Common.Dates.{Timestamp}

-- A `Buffer`.
abbrev pub Bytes : Type 0
Bytes = List ℕ

pub record ProtectedMessage : Type 0 where
  pub ciphertext : Bytes
  pub initialization_vector : Bytes
  pub authentication_tag : Bytes
  pub plaintext_sha256 : String
  pub plaintext_byte_length : ℕ
  pub encryption_key_version : String

-- The fields that `ConversationAccessContext` and `ConversationServiceAccessContext` share; the
-- `contextId` of the former is not read behind the verification of its assertion.
pub record AccessContext : Type 0 where
  pub tenant_id : String
  pub environment_id : String
  pub subject_customer_id : String
  pub routing_epoch : ℕ
  pub request_id : String
  pub trace_id : String

pub data ConversationStatus : Type 0 where
  is_open closed : ConversationStatus

pub data ControlMode : Type 0 where
  ai queued human : ControlMode

pub data Channel : Type 0 where
  web : Channel

pub data SenderKind : Type 0 where
  end_customer assistant workforce : SenderKind

pub data EventType : Type 0 where
  message_received assistant_message_committed : EventType

pub record Conversation : Type 0 where
  pub conversation_id : String
  pub status : ConversationStatus
  pub control_mode : ControlMode

pub record AcceptedMessage : Type 0 where
  pub conversation_id : String
  pub message_id : String
  pub sequence_number : ℕ

pub record TranscriptMessage : Type 0 where
  pub message_id : String
  pub sequence_number : ℕ
  pub sender_kind : SenderKind
  pub text : String
  pub created_at : Timestamp
  pub refund_workflow_id : Option String

pub record ConversationTranscript : Type 0 where
  pub conversation_id : String
  pub status : ConversationStatus
  pub control_mode : ControlMode
  pub messages : List TranscriptMessage

-- The `Date`s of the records are milliseconds after the epoch.
pub record CreateConversationRecord : Type 0 where
  pub context : AccessContext
  pub conversation_id : String
  pub idempotency_key : String
  pub canonical_request_hash : String
  pub channel : Channel
  pub created_at : ℕ

-- `AcceptMessageRecord` and `AppendAssistantMessageRecord`, which differ in their context only.
pub record AppendMessageRecord : Type 0 where
  pub context : AccessContext
  pub conversation_id : String
  pub message_id : String
  pub payload_id : String
  pub event_id : String
  pub idempotency_key : String
  pub canonical_request_hash : String
  pub client_message_id : String
  pub protected_message : ProtectedMessage
  pub occurred_at : ℕ

pub record LinkRefundWorkflowRecord : Type 0 where
  pub context : AccessContext
  pub conversation_id : String
  pub message_id : String
  pub workflow_id : String
  pub event_id : String
  pub idempotency_key : String
  pub canonical_request_hash : String
  pub occurred_at : ℕ

pub data CreateStatus : Type 0 where
  created duplicate : CreateStatus

pub data AppendStatus : Type 0 where
  accepted duplicate : AppendStatus

pub data LinkStatus : Type 0 where
  linked duplicate : LinkStatus

pub record CreateResult : Type 0 where
  pub status : CreateStatus
  pub conversation_id : String

pub record AppendResult : Type 0 where
  pub status : AppendStatus
  pub message_id : String
  pub sequence_number : ℕ

pub record LinkResult : Type 0 where
  pub status : LinkStatus
  pub workflow_id : String

-- The errors with a class of their own, then the plain `Error`s, the `RangeError` of `toISOString`,
-- and what the database and the cipher throw.
pub data ConversationError : Type 0 where
  idempotency_conflict conversation_unavailable message_too_large : ConversationError
  sequence_allocation_failed idempotency_record_disappeared stored_result_invalid :
      ConversationError
  bad_key bad_key_version bad_initialization_vector key_version_unavailable : ConversationError
  range_error constraint_violated authentication_failed : ConversationError
