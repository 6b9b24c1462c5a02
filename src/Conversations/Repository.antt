-- ===== src/Conversations/Repository.antt =====
-- The other operations of `PostgresConversationRepository` in
-- apps/services/conversation-runtime/src/postgres-conversation-repository.ts.
pub mod Written
pub mod Rows
use customer_service_os_lite.Common.{
  ℕ, Bool, true, false, not, ◌&&◌, ◌||◌, Option, none, some, List, [], ◌∷◌, map, String, str_eq,
  leb, is_opaque_id, is_none, if◌then◌else◌, Result, ok, err, ◌>>=◌, ◌>>◌, throw_if, or_throw,
}
use customer_service_os_lite.Common.Lists.{keep, find}
use customer_service_os_lite.Common.Sort.{sort_by}
use customer_service_os_lite.Common.Dates.{Timestamp, to_iso_string}
use customer_service_os_lite.Conversations.Types.{
  AccessContext, ProtectedMessage, ConversationStatus, ControlMode, SenderKind, TranscriptMessage,
  ConversationTranscript, CreateConversationRecord, LinkRefundWorkflowRecord, CreateStatus,
  CreateResult, LinkStatus, LinkResult, ConversationError,
}
use customer_service_os_lite.Conversations.Database.{
  ConversationKey, ConversationRow, PayloadRow, MessageStatus, MessageRow, Operation, StoredResult,
  IdempotencyRow, Database, same_key, find_conversation, find_idempotency_result, find_payload,
  insert_conversation, insert_idempotency, insert_idempotency_if_absent, set_workflow,
  in_transaction,
}
use customer_service_os_lite.Conversations.Append.{
  key_in, idempotency_key_in, ensure_matching_request,
}

abbrev parse_conversation_result : StoredResult → Result ConversationError String
parse_conversation_result (StoredResult.conversation_result conversation_id) = ok conversation_id
parse_conversation_result _ = err ConversationError.stored_result_invalid

abbrev parse_workflow_result : StoredResult → Result ConversationError String
parse_workflow_result (StoredResult.workflow_result workflow_id) = ok workflow_id
parse_workflow_result _ = err ConversationError.stored_result_invalid

abbrev pub conversation_row : CreateConversationRecord → ConversationRow
conversation_row r = record {
  key = key_in r.context r.conversation_id;
  subject_customer_id = r.context.subject_customer_id;
  channel = r.channel;
  status = ConversationStatus.is_open;
  control_mode = ControlMode.ai;
  next_sequence_number = 1;
  record_version = 1;
  created_at = r.created_at;
  updated_at = r.created_at;
}

abbrev pub create_row : CreateConversationRecord → IdempotencyRow
create_row r = record {
  key =
      idempotency_key_in r.context Operation.create r.context.subject_customer_id r.idempotency_key;
  canonical_request_hash = r.canonical_request_hash;
  result = StoredResult.conversation_result r.conversation_id;
  created_at = r.created_at;
}

pub create_replayed :
    CreateConversationRecord → Database → Result ConversationError (CreateResult × Database)
create_replayed r db =
    or_throw (find_idempotency_result db (create_row r).key)
      ConversationError.idempotency_record_disappeared
    >>= λ existing.
        ensure_matching_request existing r.canonical_request_hash
        >> parse_conversation_result existing.result
        >>= λ conversation_id.
            ok (record { status = CreateStatus.duplicate; conversation_id = conversation_id }, db)

-- Behind the insertion of the idempotency row.
pub create_new :
    CreateConversationRecord → Database → Result ConversationError (CreateResult × Database)
create_new r inserted = insert_conversation (conversation_row r) inserted >>= λ written.
    ok (record { status = CreateStatus.created; conversation_id = r.conversation_id }, written)

unfoldable pub create_work :
    CreateConversationRecord → Database → Result ConversationError (CreateResult × Database)
unfolding create_replayed create_new
create_work r db = elim (insert_idempotency_if_absent (create_row r) db) [
  | none ↦ create_replayed r db
  | some inserted ↦ create_new r inserted
]

abbrev pub create_conversation :
    CreateConversationRecord → Database → Result ConversationError CreateResult × Database
create_conversation r = in_transaction (create_work r)

abbrev is_linkable : ConversationKey → String → MessageRow → Bool
is_linkable k message_id m =
    same_key m.key k
    && (str_eq m.message_id message_id
        && (elim m.sender_kind [ SenderKind.assistant ↦ true | _ ↦ false ]
            && elim m.status [ MessageStatus.committed ↦ true | MessageStatus.discarded ↦ false ]))

-- The assistant's message of the record, in a conversation of the context's subject.
pub require_message : LinkRefundWorkflowRecord → Database → Result ConversationError MessageRow
require_message r db =
    let k = key_in r.context r.conversation_id in
    or_throw (find (is_linkable k r.message_id) db.messages)
      ConversationError.conversation_unavailable
    >>= λ message.
        or_throw (find_conversation db k) ConversationError.conversation_unavailable
        >>= λ conversation.
            throw_if (not (str_eq conversation.subject_customer_id r.context.subject_customer_id))
              ConversationError.conversation_unavailable
            >> ok message

abbrev names_other : Option String → String → Bool
names_other none workflow_id = false
names_other (some linked) workflow_id = not (str_eq linked workflow_id)

abbrev pub link_row : LinkRefundWorkflowRecord → IdempotencyRow
link_row r = record {
  key =
      idempotency_key_in r.context Operation.link_refund_workflow r.conversation_id
        r.idempotency_key;
  canonical_request_hash = r.canonical_request_hash;
  result = StoredResult.workflow_result r.workflow_id;
  created_at = r.occurred_at;
}

abbrev pub with_workflow : LinkRefundWorkflowRecord → MessageRow → Database → Database
with_workflow r message db =
    if is_none message.refund_workflow_id
    then record db {
      messages =
          map (set_workflow (key_in r.context r.conversation_id) r.message_id r.workflow_id)
            db.messages;
    }
    else db

-- The last check is the constraint of
-- apps/services/conversation-runtime/migrations/003_message_refund_workflow_reference.sql.
pub link_message :
    LinkRefundWorkflowRecord
    → MessageRow
    → Database
    → Result ConversationError (LinkResult × Database)
link_message r message db =
    throw_if (names_other message.refund_workflow_id r.workflow_id)
      ConversationError.idempotency_conflict
    >> throw_if (is_none message.refund_workflow_id && not (is_opaque_id 200 r.workflow_id))
        ConversationError.constraint_violated
    >> insert_idempotency (link_row r) (with_workflow r message db)
    >>= λ written. ok (
      record {
        status =
            if is_none message.refund_workflow_id then LinkStatus.linked else LinkStatus.duplicate;
        workflow_id = r.workflow_id;
      },
      written,
    )

pub link_replayed :
    LinkRefundWorkflowRecord
    → IdempotencyRow
    → Database
    → Result ConversationError (LinkResult × Database)
link_replayed r existing db =
    ensure_matching_request existing r.canonical_request_hash
    >> parse_workflow_result existing.result
    >>= λ workflow_id. ok (record { status = LinkStatus.duplicate; workflow_id = workflow_id }, db)

unfoldable pub link_work :
    LinkRefundWorkflowRecord → Database → Result ConversationError (LinkResult × Database)
unfolding require_message link_message link_replayed
link_work r db = elim (find_idempotency_result db (link_row r).key) [
  | none ↦ require_message r db >>= λ message. link_message r message db
  | some existing ↦ link_replayed r existing db
]

abbrev pub link_refund_workflow :
    LinkRefundWorkflowRecord → Database → Result ConversationError LinkResult × Database
link_refund_workflow r = in_transaction (link_work r)

abbrev pub is_shown : MessageRow → Bool
is_shown m =
    elim m.status [ MessageStatus.committed ↦ true | MessageStatus.discarded ↦ false ]
    && elim m.sender_kind [ SenderKind.workforce ↦ false | _ ↦ true ]

abbrev pub to_protected_message : MessageRow → PayloadRow → ProtectedMessage
to_protected_message m p = record {
  ciphertext = p.ciphertext;
  initialization_vector = p.initialization_vector;
  authentication_tag = p.authentication_tag;
  plaintext_sha256 = m.content_sha256;
  plaintext_byte_length = m.content_length;
  encryption_key_version = p.encryption_key_version;
}

-- The messages of a conversation with the payloads that they join; a payload's id is its primary key.
pub join_payloads : List PayloadRow → List MessageRow → List (MessageRow × PayloadRow)
join_payloads payloads [] = []
join_payloads payloads (m ∷ ms) =
    let rest = join_payloads payloads ms in
    elim (find_payload payloads m.key m.payload_id) [ none ↦ rest | some p ↦ (m, p) ∷ rest ]

-- The query, up to its ORDER BY and with it.
pub committed_rows : Database → ConversationKey → List (MessageRow × PayloadRow)
unfolding join_payloads
committed_rows db k =
    sort_by (λ (x y : MessageRow × PayloadRow). leb x.0.sequence_number y.0.sequence_number)
      (join_payloads db.payloads (keep (λ m. same_key m.key k && is_shown m) db.messages))

module _ (unprotect_message : ProtectedMessage → Result ConversationError String) where
  unfoldable pub show_row : MessageRow × PayloadRow → Result ConversationError TranscriptMessage
  show_row (m, p) = unprotect_message (to_protected_message m p) >>= λ text.
      or_throw (to_iso_string m.created_at) ConversationError.range_error >>= λ created_at.
      ok (record {
        message_id = m.message_id;
        sequence_number = m.sequence_number;
        sender_kind = m.sender_kind;
        text = text;
        created_at = created_at;
        refund_workflow_id = m.refund_workflow_id;
      })

  pub show_rows : List (MessageRow × PayloadRow) → Result ConversationError (List TranscriptMessage)
  unfolding show_row
  show_rows [] = ok []
  show_rows (row ∷ rows) =
      let rest = show_rows rows in
      show_row row >>= λ message. rest >>= λ messages. ok (message ∷ messages)

  unfoldable pub read_conversation :
      AccessContext → String → Database → Result ConversationError ConversationTranscript
  unfolding committed_rows show_rows
  read_conversation context conversation_id db =
      let k = key_in context conversation_id in
      or_throw (find_conversation db k) ConversationError.conversation_unavailable
      >>= λ conversation.
          throw_if (not (str_eq conversation.subject_customer_id context.subject_customer_id))
            ConversationError.conversation_unavailable
          >> show_rows (committed_rows db k)
          >>= λ messages. ok (record {
            conversation_id = conversation_id;
            status = conversation.status;
            control_mode = conversation.control_mode;
            messages = messages;
          })
