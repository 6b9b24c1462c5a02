-- ===== src/Conversations/Append/Twice.antt =====
-- A request that `appendMessage` of
-- apps/services/conversation-runtime/src/postgres-conversation-repository.ts has answered is answered
-- the same again.
use customer_service_os_lite.Common.{
  ℕ, Bool, true, false, ◌&&◌, ◌≡◌, refl, sym, ap, subst, ◌∙◌, Option, none, some, List, [], ◌∷◌,
  ◌++◌, String, str_eq, str_eq_iff, if◌then◌else◌, ok, err, arith,
}
use customer_service_os_lite.Common.Lists.{find}
use customer_service_os_lite.Common.Lists.Laws.{find-append-none, find-map}
use customer_service_os_lite.Conversations.Types.{
  ProtectedMessage, AppendMessageRecord, AppendStatus, AppendResult, ConversationError,
}
use customer_service_os_lite.Conversations.Database.{
  ConversationKey, ConversationRow, Operation, IdempotencyKey, StoredResult, IdempotencyRow,
  Database, same_key, same_operation, same_idempotency_key, find_conversation,
  find_idempotency_result, bump, allocate,
}
use customer_service_os_lite.Conversations.Append.{
  AppendMessageOptions, key_in, idempotency_key_in, is_open, require_conversation, idempotency_row,
  append_replayed, append_work, append_message, accept_options, accept_message,
}
use customer_service_os_lite.Conversations.Append.Written.{
  replayed, known, new, append_work-outcome, committed-work,
}

-- The request is known, with its result, and its conversation takes messages.
record IsAnswered (r : AppendMessageRecord) (operation : Operation) (db : Database)
    (result : AppendResult) : Type 0 where
  conversation : ConversationRow
  required : require_conversation db r ≡ ok conversation
  row : IdempotencyRow
  found :
      find_idempotency_result db
        (idempotency_key_in r.context operation r.conversation_id r.idempotency_key)
      ≡ some row
  hash : row.canonical_request_hash ≡ r.canonical_request_hash
  stored : row.result ≡ StoredResult.message_result result.message_id result.sequence_number

same_idempotency_key_refl : (k : IdempotencyKey) → same_idempotency_key k k ≡ true
same_idempotency_key_refl k =
    let t = (str_eq_iff k.tenant_id k.tenant_id).1 refl in
    let e = (str_eq_iff k.environment_id k.environment_id).1 refl in
    let s = (str_eq_iff k.resource_scope k.resource_scope).1 refl in
    let i = (str_eq_iff k.idempotency_key k.idempotency_key).1 refl in
    let o = operation k.operation in ground arith
  where
    operation : (o : Operation) → same_operation o o ≡ true
    operation Operation.create = refl
    operation Operation.accept_message = refl
    operation Operation.append_assistant_message = refl
    operation Operation.link_refund_workflow = refl

find_idempotency-inserted :
    (rows : List IdempotencyRow) (row : IdempotencyRow)
    → find (λ (x : IdempotencyRow). same_idempotency_key x.key row.key) rows ≡ none
    → find (λ (x : IdempotencyRow). same_idempotency_key x.key row.key) (rows ++ row ∷ [])
      ≡ some row
find_idempotency-inserted rows row h =
    find-append-none _ rows (row ∷ []) h
    ∙ (let same = same_idempotency_key_refl row.key in ground arith)

bump-key : (k : ConversationKey) (t : ℕ) (c : ConversationRow) → (bump k t c).key ≡ c.key
bump-key k t c = ground arith

bump-open :
    (k : ConversationKey) (t : ℕ) (c : ConversationRow)
    → ((bump k t c).status ≡ c.status) × ((bump k t c).subject_customer_id ≡ c.subject_customer_id)
bump-open k t c = (ground arith, ground arith)

-- What makes a conversation take the message.
abbrev takes : AppendMessageRecord → ConversationRow → Bool
takes r c = is_open c.status && str_eq c.subject_customer_id r.context.subject_customer_id

require_conversation-parts :
    (db : Database) (r : AppendMessageRecord) (c : ConversationRow)
    → require_conversation db r ≡ ok c
    → (find_conversation db (key_in r.context r.conversation_id) ≡ some c) × (takes r c ≡ true)
require_conversation-parts db r c h =
    parts (find_conversation db (key_in r.context r.conversation_id)) h
  where
    taken :
        (b : Bool) (d : ConversationRow)
        → (if b then ok d else err ConversationError.conversation_unavailable) ≡ ok c
        → (b ≡ true) × (d ≡ c)
    taken true d is = (refl, cc is)
    taken false d is = absurd (cc is)

    parts :
        (o : Option ConversationRow)
        → (elim o [
          | none ↦ err ConversationError.conversation_unavailable
          | some d ↦ if takes r d then ok d else err ConversationError.conversation_unavailable
        ])
          ≡ ok c
        → (o ≡ some c) × (takes r c ≡ true)
    parts none is = absurd (cc is)
    parts (some d) is =
        let (test, same) = taken (takes r d) d is in
        (ap some same, subst (λ x. takes r x ≡ true) same test)

require_conversation-is :
    (db : Database) (r : AppendMessageRecord) (c : ConversationRow)
    → find_conversation db (key_in r.context r.conversation_id) ≡ some c
    → takes r c ≡ true
    → require_conversation db r ≡ ok c
require_conversation-is db r c found test = ground arith

-- An allocation leaves a conversation as open as it was.
require_conversation-allocate :
    (db : Database) (r : AppendMessageRecord) (k : ConversationKey) (t : ℕ) (c : ConversationRow)
    → require_conversation db r ≡ ok c
    → require_conversation (allocate k t db) r ≡ ok (bump k t c)
require_conversation-allocate db r k t c h =
    let j = key_in r.context r.conversation_id in
    let still = bump-open k t c in
    let (found, test) = require_conversation-parts db r c h in
    require_conversation-is (allocate k t db) r (bump k t c)
      (find-map (λ (x : ConversationRow). same_key x.key j) (bump k t)
        (λ x. ap (λ y. same_key y j) (bump-key k t x)) db.conversations c found)
      (cc (still.0, still.1) ∙ test)

answered :
    (r : AppendMessageRecord) (options : AppendMessageOptions) (db db' : Database)
    (result : AppendResult)
    → append_work r options db ≡ ok (result, db')
    → IsAnswered r options.operation db' result
answered r options db db' result h =
    let k = idempotency_key_in r.context options.operation r.conversation_id r.idempotency_key in
    let (c, required, outcome) = append_work-outcome r options db db' result h in
    elim outcome [
      | replayed existing found hash stored status same ↦ record {
        conversation = c;
        required = ap (λ x. require_conversation x r) same ∙ required;
        row = existing;
        found = ap (λ (x : Database). find_idempotency_result x k) same ∙ found;
        hash = hash;
        stored = stored;
      }
      | known existing found same unused status written ↦ record {
        conversation = c;
        required = ap (λ x. require_conversation x r) written ∙ required;
        row =
            idempotency_row r options.operation
              (StoredResult.message_result result.message_id result.sequence_number);
        found =
            ap (λ (x : Database). find_idempotency_result x k) written
            ∙ find_idempotency-inserted db.idempotency _ unused;
        hash = refl;
        stored = refl;
      }
      | new unused a ↦ record {
        conversation = bump (key_in r.context r.conversation_id) r.occurred_at c;
        required =
            ap (λ x. require_conversation x r) a.written
            ∙ require_conversation-allocate db r (key_in r.context r.conversation_id) r.occurred_at
                c required;
        row =
            idempotency_row r options.operation (StoredResult.message_result r.message_id a.number);
        found =
            ap (λ (x : Database). find_idempotency_result x k) a.written
            ∙ find_idempotency-inserted db.idempotency _ unused;
        hash = refl;
        stored =
            ap (λ (x : AppendResult). StoredResult.message_result x.message_id x.sequence_number)
              (sym a.result_is);
      }
    ]

append_replayed-is :
    (r : AppendMessageRecord) (row : IdempotencyRow) (db : Database) (result : AppendResult)
    → row.canonical_request_hash ≡ r.canonical_request_hash
    → row.result ≡ StoredResult.message_result result.message_id result.sequence_number
    → append_replayed r row db ≡ ok (record result { status = AppendStatus.duplicate }, db)
unfolding append_replayed
append_replayed-is r row db result hash stored =
    let same = (str_eq_iff row.canonical_request_hash r.canonical_request_hash).1 hash in
    ground arith

answered-again :
    (r : AppendMessageRecord) (options : AppendMessageOptions) (db : Database)
    (result : AppendResult)
    → IsAnswered r options.operation db result
    → append_message r options db ≡ (ok (record result { status = AppendStatus.duplicate }), db)
unfolding append_work
answered-again r options db result is =
    let there = is.required in
    let found = is.found in
    let again = append_replayed-is r is.row db result is.hash is.stored in ground arith

-- A customer may send a message again: when the repository has answered one, the same request, with the
-- same conversation, idempotency key and request hash, gets the same message id and number as a
-- duplicate, and changes nothing, whatever new ids, time and sealed text it comes with.
pub accept_message_twice :
    (r : AppendMessageRecord) (db db' : Database) (result : AppendResult)
    (message_id payload_id event_id : String) (sealed : ProtectedMessage) (occurred_at : ℕ)
    → accept_message r db ≡ (ok result, db')
    → accept_message
        (record r {
          message_id = message_id;
          payload_id = payload_id;
          event_id = event_id;
          protected_message = sealed;
          occurred_at = occurred_at;
        })
        db'
      ≡ (ok (record result { status = AppendStatus.duplicate }), db')
accept_message_twice r db db' result message_id payload_id event_id sealed occurred_at h =
    let is =
      answered r (accept_options r) db db' result
        (committed-work (append_work r (accept_options r)) db db' result h) in
    let r' : AppendMessageRecord = record r {
      message_id = message_id;
      payload_id = payload_id;
      event_id = event_id;
      protected_message = sealed;
      occurred_at = occurred_at;
    } in
    answered-again r' (accept_options r') db' result (record {
      conversation = is.conversation;
      required = is.required;
      row = is.row;
      found = is.found;
      hash = is.hash;
      stored = is.stored;
    })
