-- ===== src/Conversations/Database.antt =====
-- The tables of apps/services/conversation-runtime/migrations/001_conversation_and_outbox.sql, and
-- the single statements of apps/services/conversation-runtime/src/postgres-conversation-repository.ts
-- on them. A table is the list of its rows in the order of insertion. Every statement names its tenant
-- and environment itself, so the row policies, which ask for the same, are left out.
use customer_service_os_lite.Common.{
  ℕ, ◌+◌, Bool, true, false, not, ◌&&◌, ◌||◌, Option, none, some, List, [], ◌∷◌, ◌++◌, map, String,
  str_eq, leb, ◌==◌, is_none, if◌then◌else◌, Result, ok, err, ◌>>◌, throw_if,
}
use customer_service_os_lite.Common.Lists.{length, some_of, find}
use customer_service_os_lite.Common.Dates.{Timestamp}
use customer_service_os_lite.Conversations.Types.{
  Bytes, ConversationStatus, ControlMode, Channel, SenderKind, EventType, ConversationError,
}

-- The primary key of a conversation.
pub record ConversationKey : Type 0 where
  pub tenant_id : String
  pub environment_id : String
  pub conversation_id : String

pub record ConversationRow : Type 0 where
  pub key : ConversationKey
  pub subject_customer_id : String
  pub channel : Channel
  pub status : ConversationStatus
  pub control_mode : ControlMode
  pub next_sequence_number : ℕ
  pub record_version : ℕ
  pub created_at : ℕ
  pub updated_at : ℕ

pub record PayloadRow : Type 0 where
  pub tenant_id : String
  pub environment_id : String
  pub payload_id : String
  pub ciphertext : Bytes
  pub initialization_vector : Bytes
  pub authentication_tag : Bytes
  pub encryption_key_version : String
  pub created_at : ℕ

pub data MessageStatus : Type 0 where
  committed discarded : MessageStatus

pub record MessageRow : Type 0 where
  pub key : ConversationKey
  pub sequence_number : ℕ
  pub message_id : String
  pub client_message_id : String
  pub sender_kind : SenderKind
  pub payload_id : String
  pub content_length : ℕ
  pub content_sha256 : String
  pub refund_workflow_id : Option String
  pub status : MessageStatus
  pub created_at : ℕ

pub data Operation : Type 0 where
  create accept_message append_assistant_message link_refund_workflow : Operation

pub record IdempotencyKey : Type 0 where
  pub tenant_id : String
  pub environment_id : String
  pub operation : Operation
  pub resource_scope : String
  pub idempotency_key : String

-- `result_json`: what `JSON.stringify` is given.
pub data StoredResult : Type 0 where
  conversation_result : (conversation_id : String) → StoredResult
  message_result : (message_id : String) (sequence_number : ℕ) → StoredResult
  workflow_result : (workflow_id : String) → StoredResult

pub record IdempotencyRow : Type 0 where
  pub key : IdempotencyKey
  pub canonical_request_hash : String
  pub result : StoredResult
  pub created_at : ℕ

-- `payload` is the event of the row; it repeats the columns, and has the message id.
pub record OutboxRow : Type 0 where
  pub key : ConversationKey
  pub event_id : String
  pub event_type : EventType
  pub aggregate_sequence : ℕ
  pub routing_epoch : ℕ
  pub trace_id : String
  pub message_id : String
  pub occurred_at : Timestamp

pub record Database : Type 0 where
  pub conversations : List ConversationRow
  pub payloads : List PayloadRow
  pub messages : List MessageRow
  pub idempotency : List IdempotencyRow
  pub outbox : List OutboxRow

abbrev pub Statement : Type 0
Statement = Database → Result ConversationError Database

abbrev pub same_key : ConversationKey → ConversationKey → Bool
same_key a b =
    str_eq a.tenant_id b.tenant_id
    && (str_eq a.environment_id b.environment_id && str_eq a.conversation_id b.conversation_id)

abbrev pub same_operation : Operation → Operation → Bool
same_operation Operation.create Operation.create = true
same_operation Operation.accept_message Operation.accept_message = true
same_operation Operation.append_assistant_message Operation.append_assistant_message = true
same_operation Operation.link_refund_workflow Operation.link_refund_workflow = true
same_operation _ _ = false

abbrev pub same_idempotency_key : IdempotencyKey → IdempotencyKey → Bool
same_idempotency_key a b =
    str_eq a.tenant_id b.tenant_id
    && (str_eq a.environment_id b.environment_id
        && (same_operation a.operation b.operation
            && (str_eq a.resource_scope b.resource_scope
                && str_eq a.idempotency_key b.idempotency_key)))

abbrev pub same_event_type : EventType → EventType → Bool
same_event_type EventType.message_received EventType.message_received = true
same_event_type EventType.assistant_message_committed EventType.assistant_message_committed = true
same_event_type _ _ = false

abbrev pub same_payload : PayloadRow → ConversationKey → String → Bool
same_payload p k payload_id =
    str_eq p.tenant_id k.tenant_id
    && (str_eq p.environment_id k.environment_id && str_eq p.payload_id payload_id)

-- SELECT … FROM conversation.conversations WHERE the primary key is k
abbrev pub find_conversation : Database → ConversationKey → Option ConversationRow
find_conversation db k = find (λ r. same_key r.key k) db.conversations

-- SELECT canonical_request_hash, result_json FROM events.idempotency_keys
abbrev pub find_idempotency_result : Database → IdempotencyKey → Option IdempotencyRow
find_idempotency_result db k = find (λ r. same_idempotency_key r.key k) db.idempotency

-- SELECT … FROM conversation.messages WHERE client_message_id is this, of the conversation k
abbrev pub find_client_message : Database → ConversationKey → String → Option MessageRow
find_client_message db k client_message_id =
    find (λ m. same_key m.key k && str_eq m.client_message_id client_message_id) db.messages

-- The payload that a message joins.
abbrev pub find_payload : List PayloadRow → ConversationKey → String → Option PayloadRow
find_payload payloads k payload_id = find (λ p. same_payload p k payload_id) payloads

unfoldable pub insert_conversation : ConversationRow → Statement
insert_conversation row db =
    throw_if (not (is_none (find_conversation db row.key))) ConversationError.constraint_violated
    >> ok (record db { conversations = db.conversations ++ row ∷ [] })

-- UPDATE conversation.conversations SET next_sequence_number = next_sequence_number + 1, …
abbrev pub bump : ConversationKey → ℕ → ConversationRow → ConversationRow
bump k occurred_at r =
    if same_key r.key k
    then record r {
      next_sequence_number = r.next_sequence_number + 1;
      record_version = r.record_version + 1;
      updated_at = occurred_at;
    }
    else r

abbrev pub allocate : ConversationKey → ℕ → Database → Database
allocate k occurred_at db = record db { conversations = map (bump k occurred_at) db.conversations }

unfoldable pub insert_payload : PayloadRow → ConversationKey → Statement
insert_payload row k db =
    throw_if
      (not (is_none (find_payload db.payloads k row.payload_id))
        || (not (length row.initialization_vector == 12)
            || not (length row.authentication_tag == 16)))
      ConversationError.constraint_violated
    >> ok (record db { payloads = db.payloads ++ row ∷ [] })

-- The uniqueness constraints and the primary key of `conversation.messages`.
abbrev pub clashes : MessageRow → MessageRow → Bool
clashes row m =
    (same_key m.key row.key && (m.sequence_number == row.sequence_number))
    || ((str_eq m.key.tenant_id row.key.tenant_id
          && (str_eq m.key.environment_id row.key.environment_id
              && str_eq m.message_id row.message_id))
        || (same_key m.key row.key && str_eq m.client_message_id row.client_message_id))

unfoldable pub insert_message : MessageRow → Statement
insert_message row db =
    throw_if
      (some_of (clashes row) db.messages
        || (not (leb 1 row.sequence_number)
            || (not (leb row.content_length 32768)
                || (is_none (find_conversation db row.key)
                    || is_none (find_payload db.payloads row.key row.payload_id)))))
      ConversationError.constraint_violated
    >> ok (record db { messages = db.messages ++ row ∷ [] })

abbrev pub event_clashes : OutboxRow → OutboxRow → Bool
event_clashes row e =
    str_eq e.key.tenant_id row.key.tenant_id
    && (str_eq e.key.environment_id row.key.environment_id
        && (str_eq e.event_id row.event_id
            || (same_event_type e.event_type row.event_type
                && (str_eq e.key.conversation_id row.key.conversation_id
                    && (e.aggregate_sequence == row.aggregate_sequence)))))

unfoldable pub insert_outbox : OutboxRow → Statement
insert_outbox row db =
    throw_if
      (some_of (event_clashes row) db.outbox
        || (not (leb 1 row.aggregate_sequence) || not (leb 1 row.routing_epoch)))
      ConversationError.constraint_violated
    >> ok (record db { outbox = db.outbox ++ row ∷ [] })

unfoldable pub insert_idempotency : IdempotencyRow → Statement
insert_idempotency row db =
    throw_if (not (is_none (find_idempotency_result db row.key)))
      ConversationError.constraint_violated
    >> ok (record db { idempotency = db.idempotency ++ row ∷ [] })

-- The same with ON CONFLICT DO NOTHING; `none` is a row count of zero.
unfoldable pub insert_idempotency_if_absent : IdempotencyRow → Database → Option Database
insert_idempotency_if_absent row db = elim (find_idempotency_result db row.key) [
  | some existing ↦ none
  | none ↦ some (record db { idempotency = db.idempotency ++ row ∷ [] })
]

-- UPDATE conversation.messages SET refund_workflow_id = … WHERE message_id is this
abbrev pub set_workflow : ConversationKey → String → String → MessageRow → MessageRow
set_workflow k message_id workflow_id m =
    if same_key m.key k && str_eq m.message_id message_id
    then record m { refund_workflow_id = some workflow_id }
    else m

-- BEGIN, then COMMIT or ROLLBACK.
abbrev pub in_transaction :
    {A : Type 0}
    → (Database → Result ConversationError (A × Database))
    → Database
    → Result ConversationError A × Database
in_transaction work db = elim (work db) [
  | ok (result, written) ↦ (ok result, written)
  | err e ↦ (err e, db)
]
