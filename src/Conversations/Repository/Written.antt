-- ===== src/Conversations/Repository/Written.antt =====
-- What `createConversation` and `linkRefundWorkflow` of
-- apps/services/conversation-runtime/src/postgres-conversation-repository.ts write.
use customer_service_os_lite.Common.{
  false, ◌≡◌, ◌⊎◌, ◌∙◌, inl, inr, Option-cases, none, [], ◌∷◌, ◌++◌, ok, >>=-eq-ok, throw_if-eq-ok,
  or_throw, arith,
}
use customer_service_os_lite.Conversations.Types.{
  CreateConversationRecord, LinkRefundWorkflowRecord, CreateResult, LinkResult, ConversationError,
}
use customer_service_os_lite.Conversations.Database.{
  ConversationRow, MessageRow, IdempotencyRow, Database, find_conversation, find_idempotency_result,
  insert_conversation, insert_idempotency, insert_idempotency_if_absent,
}
use customer_service_os_lite.Conversations.Append.{key_in}
use customer_service_os_lite.Conversations.Append.Written.{insert_idempotency-eq-ok}
use customer_service_os_lite.Common.{answer-eq-ok}
use customer_service_os_lite.Conversations.Repository.{
  create_work, create_row, create_replayed, create_new, conversation_row, link_work, link_message,
  link_replayed, link_row, with_workflow, require_message, names_other,
}

abbrev pub create_written : CreateConversationRecord → Database → Database
create_written r db = record db {
  conversations = db.conversations ++ conversation_row r ∷ [];
  idempotency = db.idempotency ++ create_row r ∷ [];
}

create_replayed-keeps :
    (r : CreateConversationRecord) (db db' : Database) (result : CreateResult)
    → create_replayed r db ≡ ok (result, db')
    → db' ≡ db
unfolding create_replayed
create_replayed-keeps r db db' result h =
    let (existing, found, h1) =
      >>=-eq-ok
        (or_throw (find_idempotency_result db (create_row r).key)
          ConversationError.idempotency_record_disappeared)
        _ h in
    (answer-eq-ok _ _ (λ id. db) result db' h1).3

insert_conversation-eq-ok :
    (row : ConversationRow) (db db' : Database)
    → insert_conversation row db ≡ ok db'
    → (find_conversation db row.key ≡ none)
      × (db' ≡ record db { conversations = db.conversations ++ row ∷ [] })
unfolding insert_conversation
insert_conversation-eq-ok row db db' h =
    let fresh = Option-cases (find_conversation db row.key) in (ground arith, ground arith)

create_new-writes :
    (r : CreateConversationRecord) (db db' : Database) (result : CreateResult)
    → create_new r db ≡ ok (result, db')
    → (find_conversation db (key_in r.context r.conversation_id) ≡ none)
      × (db' ≡ record db { conversations = db.conversations ++ conversation_row r ∷ [] })
unfolding create_new
create_new-writes r db db' result h =
    let (written, inserted, same, kept) =
      answer-eq-ok (insert_conversation (conversation_row r) db) _ (λ x. x) result db' h in
    let (unknown, is) = insert_conversation-eq-ok (conversation_row r) db written inserted in
    (unknown, kept ∙ is)

pub create_work-writes :
    (r : CreateConversationRecord) (db db' : Database) (result : CreateResult)
    → create_work r db ≡ ok (result, db')
    → (db' ≡ db)
      ⊎ ((find_conversation db (key_in r.context r.conversation_id) ≡ none)
          × (db' ≡ create_written r db))
unfolding create_work insert_idempotency_if_absent
create_work-writes r db db' result h =
    elim (Option-cases (find_idempotency_result db (create_row r).key)) [
      | inr (existing, is) ↦ inl (create_replayed-keeps r db db' result (ground arith))
      | inl fresh ↦
          let inserted : Database = record db {
            idempotency = db.idempotency ++ create_row r ∷ [];
          } in
          let (unknown, is) = create_new-writes r inserted db' result (ground arith) in
          inr (unknown, is)
    ]

-- With the row that makes the request known.
abbrev pub with_idempotency : Database → IdempotencyRow → Database
with_idempotency db row = record db { idempotency = db.idempotency ++ row ∷ [] }

link_message-writes :
    (r : LinkRefundWorkflowRecord) (message : MessageRow) (db db' : Database) (result : LinkResult)
    → link_message r message db ≡ ok (result, db')
    → (names_other message.refund_workflow_id r.workflow_id ≡ false)
      × (db' ≡ with_idempotency (with_workflow r message db) (link_row r))
unfolding link_message
link_message-writes r message db db' result h =
    let linked = with_workflow r message db in
    let (written, h1, same, kept) = answer-eq-ok _ _ (λ (x : Database). x) result db' h in
    let (nothing, h2, inserted) = >>=-eq-ok _ (λ u. insert_idempotency (link_row r) linked) h1 in
    let (matches, h3) =
      throw_if-eq-ok (names_other message.refund_workflow_id r.workflow_id)
        ConversationError.idempotency_conflict _ h2 in
    (matches, kept ∙ (insert_idempotency-eq-ok (link_row r) linked written inserted).1)

link_replayed-keeps :
    (r : LinkRefundWorkflowRecord) (existing : IdempotencyRow) (db db' : Database)
    (result : LinkResult)
    → link_replayed r existing db ≡ ok (result, db')
    → db' ≡ db
unfolding link_replayed
link_replayed-keeps r existing db db' result h = (answer-eq-ok _ _ (λ id. db) result db' h).3

pub link_work-writes :
    (r : LinkRefundWorkflowRecord) (db db' : Database) (result : LinkResult)
    → link_work r db ≡ ok (result, db')
    → (db' ≡ db)
      ⊎ ((message : MessageRow) × (require_message r db ≡ ok message)
          × (names_other message.refund_workflow_id r.workflow_id ≡ false)
          × (db' ≡ with_idempotency (with_workflow r message db) (link_row r)))
unfolding link_work
link_work-writes r db db' result h =
    elim (Option-cases (find_idempotency_result db (link_row r).key)) [
      | inr (existing, is) ↦ inl (link_replayed-keeps r existing db db' result (ground arith))
      | inl unused ↦
          let (message, required, h1) =
            >>=-eq-ok (require_message r db) (λ m. link_message r m db) (ground arith) in
          let (matches, is) = link_message-writes r message db db' result h1 in
          inr (message, required, matches, is)
    ]
