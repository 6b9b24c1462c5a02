-- ===== src/Conversations/Append.antt =====
-- `appendMessage` of apps/services/conversation-runtime/src/postgres-conversation-repository.ts, with
-- the helpers on idempotency results. `FOR UPDATE` lets the transactions of a conversation run one
-- after the other, which is how they are composed here.
pub mod Written
pub mod Twice
use customer_service_os_lite.Common.{
  ℕ, ◌+◌, ◌-◌, Bool, true, false, not, ◌&&◌, ◌||◌, Option, none, some, List, [], ◌∷◌, String,
  str_eq, template, leb, ltb, is_none, if◌then◌else◌, Result, ok, err, ◌>>=◌, ◌>>◌, throw_if,
  or_throw,
}
use customer_service_os_lite.Common.Dates.{Timestamp, to_iso_string}
use customer_service_os_lite.Conversations.Types.{
  AccessContext, ConversationStatus, SenderKind, EventType, AppendMessageRecord, AppendStatus,
  AppendResult, ConversationError,
}
use customer_service_os_lite.Conversations.Database.{
  ConversationKey, ConversationRow, PayloadRow, MessageStatus, MessageRow, Operation,
  IdempotencyKey, StoredResult, IdempotencyRow, OutboxRow, Database, same_key, find_conversation,
  find_idempotency_result, find_client_message, allocate, insert_payload, insert_message,
  insert_outbox, insert_idempotency, in_transaction,
}

pub record AppendMessageOptions : Type 0 where
  pub operation : Operation
  pub event_type : EventType
  pub sender_kind : SenderKind
  pub stored_client_message_id : String

abbrev pub accept_options : AppendMessageRecord → AppendMessageOptions
accept_options r = record {
  operation = Operation.accept_message;
  event_type = EventType.message_received;
  sender_kind = SenderKind.end_customer;
  stored_client_message_id = r.client_message_id;
}

abbrev pub assistant_options : AppendMessageRecord → AppendMessageOptions
assistant_options r = record {
  operation = Operation.append_assistant_message;
  event_type = EventType.assistant_message_committed;
  sender_kind = SenderKind.assistant;
  stored_client_message_id = template ("assistant:" ∷ r.client_message_id ∷ []);
}

abbrev pub key_in : AccessContext → String → ConversationKey
key_in context conversation_id = record {
  tenant_id = context.tenant_id;
  environment_id = context.environment_id;
  conversation_id = conversation_id;
}

abbrev pub idempotency_key_in : AccessContext → Operation → String → String → IdempotencyKey
idempotency_key_in context operation resource_scope key = record {
  tenant_id = context.tenant_id;
  environment_id = context.environment_id;
  operation = operation;
  resource_scope = resource_scope;
  idempotency_key = key;
}

abbrev pub is_open : ConversationStatus → Bool
is_open ConversationStatus.is_open = true
is_open ConversationStatus.closed = false

abbrev pub ensure_matching_request : IdempotencyRow → String → Result ConversationError (Unit {0})
ensure_matching_request existing canonical_request_hash =
    throw_if (not (str_eq existing.canonical_request_hash canonical_request_hash))
      ConversationError.idempotency_conflict

abbrev pub parse_message_result : StoredResult → Result ConversationError (String × ℕ)
parse_message_result (StoredResult.message_result message_id sequence_number) =
    ok (message_id, sequence_number)
parse_message_result _ = err ConversationError.stored_result_invalid

-- The open conversation of the record, if it belongs to the subject of its context.
abbrev pub require_conversation :
    Database → AppendMessageRecord → Result ConversationError ConversationRow
require_conversation db r = elim (find_conversation db (key_in r.context r.conversation_id)) [
  | none ↦ err ConversationError.conversation_unavailable
  | some c ↦
      if is_open c.status && str_eq c.subject_customer_id r.context.subject_customer_id
      then ok c
      else err ConversationError.conversation_unavailable
]

-- `Number.MAX_SAFE_INTEGER`
abbrev pub max_safe_number : ℕ
max_safe_number = 9007199254740991

-- What RETURNING gives is read from the row behind the update.
abbrev pub allocated_number : Database → ConversationKey → Result ConversationError ℕ
allocated_number db k =
    or_throw (find_conversation db k) ConversationError.sequence_allocation_failed >>= λ c.
    let sequence_number = c.next_sequence_number - 1 in
    throw_if (ltb max_safe_number sequence_number || ltb sequence_number 1)
      ConversationError.sequence_allocation_failed
    >> ok sequence_number

abbrev pub idempotency_row : AppendMessageRecord → Operation → StoredResult → IdempotencyRow
idempotency_row r operation result = record {
  key = idempotency_key_in r.context operation r.conversation_id r.idempotency_key;
  canonical_request_hash = r.canonical_request_hash;
  result = result;
  created_at = r.occurred_at;
}

abbrev pub payload_row : AppendMessageRecord → PayloadRow
payload_row r = record {
  tenant_id = r.context.tenant_id;
  environment_id = r.context.environment_id;
  payload_id = r.payload_id;
  ciphertext = r.protected_message.ciphertext;
  initialization_vector = r.protected_message.initialization_vector;
  authentication_tag = r.protected_message.authentication_tag;
  encryption_key_version = r.protected_message.encryption_key_version;
  created_at = r.occurred_at;
}

abbrev pub message_row : AppendMessageRecord → AppendMessageOptions → ℕ → MessageRow
message_row r options sequence_number = record {
  key = key_in r.context r.conversation_id;
  sequence_number = sequence_number;
  message_id = r.message_id;
  client_message_id = options.stored_client_message_id;
  sender_kind = options.sender_kind;
  payload_id = r.payload_id;
  content_length = r.protected_message.plaintext_byte_length;
  content_sha256 = r.protected_message.plaintext_sha256;
  refund_workflow_id = none;
  status = MessageStatus.committed;
  created_at = r.occurred_at;
}

abbrev pub outbox_row : AppendMessageRecord → AppendMessageOptions → ℕ → Timestamp → OutboxRow
outbox_row r options sequence_number occurred_at = record {
  key = key_in r.context r.conversation_id;
  event_id = r.event_id;
  event_type = options.event_type;
  aggregate_sequence = sequence_number;
  routing_epoch = r.context.routing_epoch;
  trace_id = r.context.trace_id;
  message_id = r.message_id;
  occurred_at = occurred_at;
}

-- From the allocation of the number on.
pub append_new :
    AppendMessageRecord
    → AppendMessageOptions
    → Database
    → Result ConversationError (AppendResult × Database)
append_new r options db =
    let k = key_in r.context r.conversation_id in
    let bumped = allocate k r.occurred_at db in
    allocated_number bumped k >>= λ sequence_number.
    insert_payload (payload_row r) k bumped >>= λ with_payload.
    insert_message (message_row r options sequence_number) with_payload >>= λ with_message.
    or_throw (to_iso_string r.occurred_at) ConversationError.range_error >>= λ occurred_at.
    insert_outbox (outbox_row r options sequence_number occurred_at) with_message >>= λ with_event.
    insert_idempotency
      (idempotency_row r options.operation
        (StoredResult.message_result r.message_id sequence_number))
      with_event
    >>= λ written. ok (
      record {
        status = AppendStatus.accepted;
        message_id = r.message_id;
        sequence_number = sequence_number;
      },
      written,
    )

-- The client's message is in the conversation already.
pub append_known :
    AppendMessageRecord
    → AppendMessageOptions
    → MessageRow
    → Database
    → Result ConversationError (AppendResult × Database)
append_known r options existing db =
    throw_if (not (str_eq existing.content_sha256 r.protected_message.plaintext_sha256))
      ConversationError.idempotency_conflict
    >> insert_idempotency
        (idempotency_row r options.operation
          (StoredResult.message_result existing.message_id existing.sequence_number))
        db
    >>= λ written. ok (
      record {
        status = AppendStatus.duplicate;
        message_id = existing.message_id;
        sequence_number = existing.sequence_number;
      },
      written,
    )

-- The request is known under its idempotency key.
pub append_replayed :
    AppendMessageRecord
    → IdempotencyRow
    → Database
    → Result ConversationError (AppendResult × Database)
append_replayed r existing db =
    ensure_matching_request existing r.canonical_request_hash
    >> parse_message_result existing.result
    >>= λ result. ok (
      record { status = AppendStatus.duplicate; message_id = result.0; sequence_number = result.1 },
      db,
    )

unfoldable pub append_work :
    AppendMessageRecord
    → AppendMessageOptions
    → Database
    → Result ConversationError (AppendResult × Database)
unfolding append_new append_known append_replayed
append_work r options db = require_conversation db r >>= λ conversation.
    elim (find_idempotency_result db
      (idempotency_key_in r.context options.operation r.conversation_id r.idempotency_key)) [
        | some existing ↦ append_replayed r existing db
        | none ↦
            elim (find_client_message db (key_in r.context r.conversation_id)
              options.stored_client_message_id) [
                | some existing ↦ append_known r options existing db
                | none ↦ append_new r options db
              ]
      ]

abbrev pub append_message :
    AppendMessageRecord
    → AppendMessageOptions
    → Database
    → Result ConversationError AppendResult × Database
append_message r options = in_transaction (append_work r options)

abbrev pub accept_message :
    AppendMessageRecord → Database → Result ConversationError AppendResult × Database
accept_message r = append_message r (accept_options r)

abbrev pub append_assistant_message :
    AppendMessageRecord → Database → Result ConversationError AppendResult × Database
append_assistant_message r = append_message r (assistant_options r)
