-- ===== src/Conversations/Service.antt =====
-- `createConversationService` of apps/services/conversation-runtime/src/conversation-service.ts on the
-- repository of `Append` and `Repository`. The sources of ids, of instants and of initialization
-- vectors are streams that are read in order.
pub mod Laws
use customer_service_os_lite.Common.{
  ℕ, ◌+◌, Bool, List, [], ◌∷◌, String, ltb, if◌then◌else◌, Result, ok, err,
}
use customer_service_os_lite.Common.Lists.{length}
use customer_service_os_lite.Common.Sort.{sort_by}
use customer_service_os_lite.Conversations.Types.{
  Bytes, AccessContext, ProtectedMessage, ConversationStatus, ControlMode, Channel, Conversation,
  AcceptedMessage, ConversationTranscript, AppendMessageRecord, AppendResult, CreateResult,
  LinkResult, ConversationError,
}
use customer_service_os_lite.Conversations.Protection.{Crypto}
use customer_service_os_lite.Conversations.Database.{Database}
use customer_service_os_lite.Conversations.Append.{
  AppendMessageOptions, accept_options, assistant_options, append_message,
}
use customer_service_os_lite.Conversations.Repository.{
  create_conversation, link_refund_workflow, read_conversation,
}

-- What the service is given: `createId`, `now`, `protectMessage` at the vectors that it draws, and
-- `unprotectMessage` of its repository; `JSON.stringify` and the order of `localeCompare`.
pub record Environment : Type 0 where
  pub crypto : Crypto
  pub ids : ℕ → String
  pub now : ℕ → ℕ
  pub vectors : ℕ → Bytes
  pub protect : Bytes → String → Result ConversationError ProtectedMessage
  pub unprotect : ProtectedMessage → Result ConversationError String
  pub stringify : List (String × String) → String
  pub locale_le : String → String → Bool

pub record State : Type 0 where
  pub database : Database
  pub ids_taken : ℕ
  pub clock_reads : ℕ
  pub vectors_taken : ℕ

pub record CreateInput : Type 0 where
  pub context : AccessContext
  pub idempotency_key : String
  pub channel : Channel

pub record MessageInput : Type 0 where
  pub context : AccessContext
  pub conversation_id : String
  pub idempotency_key : String
  pub client_message_id : String
  pub text : String

pub record LinkInput : Type 0 where
  pub context : AccessContext
  pub conversation_id : String
  pub message_id : String
  pub workflow_id : String
  pub idempotency_key : String

-- 32 * 1_024
abbrev pub max_message_bytes : ℕ
max_message_bytes = 32768

module _ (env : Environment) where
  unfoldable pub hash_canonical_request : List (String × String) → String
  hash_canonical_request entries = env.crypto.sha256 (
      env.crypto.encode
        (env.stringify (sort_by (λ (l r : String × String). env.locale_le l.0 r.0) entries)))

  pub create : CreateInput → State → Result ConversationError Conversation × State
  create input s =
      let (result, written) =
        create_conversation
          (record {
            context = input.context;
            conversation_id = env.ids s.ids_taken;
            idempotency_key = input.idempotency_key;
            canonical_request_hash = hash_canonical_request (
                ("channel", "web") ∷ ("subjectCustomerId", input.context.subject_customer_id) ∷ []);
            channel = input.channel;
            created_at = env.now s.clock_reads;
          })
          s.database in
      let next : State = record s {
        database = written;
        ids_taken = s.ids_taken + 1;
        clock_reads = s.clock_reads + 1;
      } in
      elim result [
        | err e ↦ (err e, next)
        | ok r ↦ (
          ok (record {
            conversation_id = r.conversation_id;
            status = ConversationStatus.is_open;
            control_mode = ControlMode.ai;
          }),
          next,
        )
      ]

  -- The record of a message; its protected text has drawn a vector.
  abbrev pub message_record : MessageInput → ProtectedMessage → State → AppendMessageRecord
  message_record input protected_message s = record {
    context = input.context;
    conversation_id = input.conversation_id;
    message_id = env.ids s.ids_taken;
    payload_id = env.ids (s.ids_taken + 1);
    event_id = env.ids (s.ids_taken + 2);
    idempotency_key = input.idempotency_key;
    canonical_request_hash =
        hash_canonical_request
          (("clientMessageId", input.client_message_id) ∷ ("text", input.text) ∷ []);
    client_message_id = input.client_message_id;
    protected_message = protected_message;
    occurred_at = env.now s.clock_reads;
  }

  -- `acceptMessage` and `appendAssistantMessage`, which differ in what they call on the repository.
  unfoldable pub send :
      (AppendMessageRecord → AppendMessageOptions)
      → MessageInput
      → State
      → Result ConversationError AcceptedMessage × State
  send options input s =
      if ltb max_message_bytes (length (env.crypto.encode input.text))
      then (err ConversationError.message_too_large, s)
      else let drawn : State = record s {
        ids_taken = s.ids_taken + 3;
        clock_reads = s.clock_reads + 1;
        vectors_taken = s.vectors_taken + 1;
      } in
        elim (env.protect (env.vectors s.vectors_taken) input.text) [
          | err e ↦ (err e, drawn)
          | ok protected_message ↦
              let r = message_record input protected_message s in
              let (result, written) = append_message r (options r) s.database in
              let next : State = record drawn { database = written } in
              elim result [
                | err e ↦ (err e, next)
                | ok appended ↦ (
                  ok (record {
                    conversation_id = input.conversation_id;
                    message_id = appended.message_id;
                    sequence_number = appended.sequence_number;
                  }),
                  next,
                )
              ]
        ]

  abbrev pub accept_message :
      MessageInput → State → Result ConversationError AcceptedMessage × State
  accept_message = send accept_options

  abbrev pub append_assistant_message :
      MessageInput → State → Result ConversationError AcceptedMessage × State
  append_assistant_message = send assistant_options

  pub link_workflow : LinkInput → State → Result ConversationError LinkResult × State
  link_workflow input s =
      let (result, written) =
        link_refund_workflow
          (record {
            context = input.context;
            conversation_id = input.conversation_id;
            message_id = input.message_id;
            workflow_id = input.workflow_id;
            event_id = env.ids s.ids_taken;
            idempotency_key = input.idempotency_key;
            canonical_request_hash =
                hash_canonical_request
                  (("messageId", input.message_id) ∷ ("workflowId", input.workflow_id) ∷ []);
            occurred_at = env.now s.clock_reads;
          })
          s.database in
      (
        result,
        record s {
          database = written;
          ids_taken = s.ids_taken + 1;
          clock_reads = s.clock_reads + 1;
        },
      )

  abbrev pub get_conversation :
      AccessContext → String → State → Result ConversationError ConversationTranscript
  get_conversation context conversation_id s =
      read_conversation env.unprotect context conversation_id s.database
