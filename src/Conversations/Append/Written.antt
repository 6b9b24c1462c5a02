-- ===== src/Conversations/Append/Written.antt =====
-- What `appendMessage` of apps/services/conversation-runtime/src/postgres-conversation-repository.ts
-- writes, branch by branch.
use customer_service_os_lite.Common.{or_throw-eq-ok, pair_parts, not-eq-false}
use customer_service_os_lite.Common.{
  ℕ, true, false, not, ◌≡◌, sym, ap, subst, ◌∙◌, inl, inr, Option-cases, none, some, [], ◌∷◌, ◌++◌,
  map, String, str_eq, str_eq_iff, leb, Result, ok, err, ◌>>◌, >>=-eq-ok, throw_if, throw_if-eq-ok,
  arith,
}
use customer_service_os_lite.Common.Lists.{some_of}
use customer_service_os_lite.Common.Dates.{Timestamp, to_iso_string}
use customer_service_os_lite.Conversations.Types.{
  AppendMessageRecord, AppendStatus, AppendResult, ConversationError,
}
use customer_service_os_lite.Conversations.Database.{
  ConversationKey, ConversationRow, PayloadRow, MessageRow, StoredResult, IdempotencyRow, OutboxRow,
  Database, find_idempotency_result, find_client_message, find_payload, bump, allocate,
  insert_payload, insert_message, insert_outbox, insert_idempotency, clashes, in_transaction,
}
use customer_service_os_lite.Conversations.Append.{
  AppendMessageOptions, key_in, idempotency_key_in, require_conversation, allocated_number,
  idempotency_row, payload_row, message_row, outbox_row, append_new, append_known, append_replayed,
  append_work, ensure_matching_request, parse_message_result,
}

pub insert_payload-eq-ok :
    (row : PayloadRow) (k : ConversationKey) (db db' : Database)
    → insert_payload row k db ≡ ok db'
    → (find_payload db.payloads k row.payload_id ≡ none)
      × (db' ≡ record db { payloads = db.payloads ++ row ∷ [] })
unfolding insert_payload
insert_payload-eq-ok row k db db' h =
    let fresh = Option-cases (find_payload db.payloads k row.payload_id) in
    (ground arith, ground arith)

pub insert_message-eq-ok :
    (row : MessageRow) (db db' : Database)
    → insert_message row db ≡ ok db'
    → (some_of (clashes row) db.messages ≡ false)
      × (leb row.content_length 32768 ≡ true)
      × (db' ≡ record db { messages = db.messages ++ row ∷ [] })
unfolding insert_message
insert_message-eq-ok row db db' h = (ground arith, ground arith, ground arith)

pub insert_outbox-eq-ok :
    (row : OutboxRow) (db db' : Database)
    → insert_outbox row db ≡ ok db'
    → db' ≡ record db { outbox = db.outbox ++ row ∷ [] }
unfolding insert_outbox
insert_outbox-eq-ok row db db' h = ground arith

pub insert_idempotency-eq-ok :
    (row : IdempotencyRow) (db db' : Database)
    → insert_idempotency row db ≡ ok db'
    → (find_idempotency_result db row.key ≡ none)
      × (db' ≡ record db { idempotency = db.idempotency ++ row ∷ [] })
unfolding insert_idempotency
insert_idempotency-eq-ok row db db' h =
    let fresh = Option-cases (find_idempotency_result db row.key) in (ground arith, ground arith)

-- The rows that a new message adds.
abbrev pub appended :
    AppendMessageRecord → AppendMessageOptions → ℕ → Timestamp → Database → Database
appended r options n occurred_at db = record db {
  conversations = map (bump (key_in r.context r.conversation_id) r.occurred_at) db.conversations;
  payloads = db.payloads ++ payload_row r ∷ [];
  messages = db.messages ++ message_row r options n ∷ [];
  outbox = db.outbox ++ outbox_row r options n occurred_at ∷ [];
  idempotency =
      db.idempotency
      ++ idempotency_row r options.operation (StoredResult.message_result r.message_id n) ∷ [];
}

pub record IsAppended (r : AppendMessageRecord) (options : AppendMessageOptions) (db : Database)
    (result : AppendResult) (db' : Database) : Type 0 where
  pub number : ℕ
  pub occurred_at : Timestamp
  pub instant : to_iso_string r.occurred_at ≡ some occurred_at
  pub allocated :
      allocated_number
        (allocate (key_in r.context r.conversation_id) r.occurred_at db)
        (key_in r.context r.conversation_id)
      ≡ ok number
  pub payload_fresh :
      find_payload db.payloads (key_in r.context r.conversation_id) r.payload_id ≡ none
  pub result_is : result ≡ record {
    status = AppendStatus.accepted;
    message_id = r.message_id;
    sequence_number = number;
  }
  pub unclashing : some_of (clashes (message_row r options number)) db.messages ≡ false
  pub bounded : leb r.protected_message.plaintext_byte_length 32768 ≡ true
  pub written : db' ≡ appended r options number occurred_at db

pub append_new-IsAppended :
    (r : AppendMessageRecord) (options : AppendMessageOptions) (db db' : Database)
    (result : AppendResult)
    → append_new r options db ≡ ok (result, db')
    → IsAppended r options db result db'
unfolding append_new
append_new-IsAppended r options db db' result h =
    let k = key_in r.context r.conversation_id in
    let bumped = allocate k r.occurred_at db in
    let (n, allocated, h1) = >>=-eq-ok (allocated_number bumped k) _ h in
    let (a, h2, h3) = >>=-eq-ok (insert_payload (payload_row r) k bumped) _ h1 in
    let (b, h4, h5) = >>=-eq-ok (insert_message (message_row r options n) a) _ h3 in
    let (t, instant, h6) =
      or_throw-eq-ok (to_iso_string r.occurred_at) ConversationError.range_error _ h5 in
    let (c, h7, h8) = >>=-eq-ok (insert_outbox (outbox_row r options n t) b) _ h6 in
    let stored = idempotency_row r options.operation (StoredResult.message_result r.message_id n) in
    let (d, h9, h10) = >>=-eq-ok (insert_idempotency stored c) _ h8 in
    let (fresh, is_a) = insert_payload-eq-ok (payload_row r) k bumped a h2 in
    let (unclashing, bounded, is_b) = insert_message-eq-ok (message_row r options n) a b h4 in
    let is_c = insert_outbox-eq-ok (outbox_row r options n t) b c h7 in
    let (unused, is_d) = insert_idempotency-eq-ok stored c d h9 in
    let e : (result ≡ _) × (db' ≡ d) = pair_parts _ result d db' h10 in
    record {
      number = n;
      occurred_at = t;
      instant = instant;
      allocated = allocated;
      payload_fresh = fresh;
      result_is = e.0;
      unclashing =
          subst (λ ms. some_of (clashes (message_row r options n)) ms ≡ false)
            (ap (λ (x : Database). x.messages) is_a) unclashing;
      bounded = bounded;
      written =
          e.1
          ∙ is_d
          ∙ ap (λ (x : Database). record x { idempotency = x.idempotency ++ stored ∷ [] })
              (is_c
                ∙ ap
                    (λ (x : Database). record x {
                      outbox = x.outbox ++ outbox_row r options n t ∷ [];
                    })
                    (is_b
                      ∙ ap
                          (λ (x : Database). record x {
                            messages = x.messages ++ message_row r options n ∷ [];
                          })
                          is_a));
    }

-- The three ways in which `appendMessage` returns.
pub data Outcome (r : AppendMessageRecord) (options : AppendMessageOptions) (db : Database)
    (result : AppendResult) (db' : Database) : Type 0 where
  replayed :
      (existing : IdempotencyRow)
      → find_idempotency_result db
          (idempotency_key_in r.context options.operation r.conversation_id r.idempotency_key)
        ≡ some existing
      → existing.canonical_request_hash ≡ r.canonical_request_hash
      → existing.result ≡ StoredResult.message_result result.message_id result.sequence_number
      → result.status ≡ AppendStatus.duplicate
      → db' ≡ db
      → Outcome r options db result db'
  known :
      (existing : MessageRow)
      → find_client_message db (key_in r.context r.conversation_id) options.stored_client_message_id
        ≡ some existing
      → (existing.message_id ≡ result.message_id)
        × (existing.sequence_number ≡ result.sequence_number)
      → find_idempotency_result db
          (idempotency_key_in r.context options.operation r.conversation_id r.idempotency_key)
        ≡ none
      → result.status ≡ AppendStatus.duplicate
      → db' ≡ record db {
        idempotency =
            db.idempotency
            ++ idempotency_row r options.operation
                (StoredResult.message_result result.message_id result.sequence_number)
              ∷ [];
      }
      → Outcome r options db result db'
  new :
      find_idempotency_result db
          (idempotency_key_in r.context options.operation r.conversation_id r.idempotency_key)
        ≡ none
      → IsAppended r options db result db'
      → Outcome r options db result db'

parse_message_result-eq-ok :
    (stored : StoredResult) (result : AppendResult) (parsed : String × ℕ)
    → parse_message_result stored ≡ ok parsed
    → result ≡ record {
      status = AppendStatus.duplicate;
      message_id = parsed.0;
      sequence_number = parsed.1;
    }
    → stored ≡ StoredResult.message_result result.message_id result.sequence_number
parse_message_result-eq-ok (StoredResult.message_result m n) result parsed h e = ground arith
parse_message_result-eq-ok (StoredResult.conversation_result c) result parsed h e =
    absurd (ground arith)
parse_message_result-eq-ok (StoredResult.workflow_result c) result parsed h e =
    absurd (ground arith)

replayed-outcome :
    (r : AppendMessageRecord) (options : AppendMessageOptions) (db db' : Database)
    (result : AppendResult) (existing : IdempotencyRow)
    → find_idempotency_result db
        (idempotency_key_in r.context options.operation r.conversation_id r.idempotency_key)
      ≡ some existing
    → append_replayed r existing db ≡ ok (result, db')
    → Outcome r options db result db'
unfolding append_replayed
replayed-outcome r options db db' result existing found h =
    let (parsed, h1, h2) =
      >>=-eq-ok
        (ensure_matching_request existing r.canonical_request_hash
          >> parse_message_result existing.result)
        _ h in
    let (same, is) = throw_if-eq-ok _ ConversationError.idempotency_conflict _ h1 in
    let e : (result ≡ _) × (db' ≡ db) = pair_parts _ result db db' h2 in
    let hash = str_eq_iff existing.canonical_request_hash r.canonical_request_hash in
    let checked : existing.canonical_request_hash ≡ r.canonical_request_hash =
      hash.0 (not-eq-false _ same) in
    replayed existing found checked
      (parse_message_result-eq-ok existing.result result parsed is e.0)
      (ap (λ (x : AppendResult). x.status) e.0) e.1

known-outcome :
    (r : AppendMessageRecord) (options : AppendMessageOptions) (db db' : Database)
    (result : AppendResult) (existing : MessageRow)
    → find_idempotency_result db
        (idempotency_key_in r.context options.operation r.conversation_id r.idempotency_key)
      ≡ none
    → find_client_message db (key_in r.context r.conversation_id) options.stored_client_message_id
      ≡ some existing
    → append_known r options existing db ≡ ok (result, db')
    → Outcome r options db result db'
unfolding append_known
known-outcome r options db db' result existing unused found h =
    let row =
      idempotency_row r options.operation
        (StoredResult.message_result existing.message_id existing.sequence_number) in
    let (written, h1, h2) =
      >>=-eq-ok
        (throw_if (not (str_eq existing.content_sha256 r.protected_message.plaintext_sha256))
            ConversationError.idempotency_conflict
          >> insert_idempotency row db)
        _ h in
    let (same, inserted) = throw_if-eq-ok _ ConversationError.idempotency_conflict _ h1 in
    let e : (result ≡ _) × (db' ≡ written) = pair_parts _ result written db' h2 in
    let (fresh, is) = insert_idempotency-eq-ok row db written inserted in
    known existing found
      (
        ap (λ (x : AppendResult). x.message_id) (sym e.0),
        ap (λ (x : AppendResult). x.sequence_number) (sym e.0),
      )
      unused (ap (λ (x : AppendResult). x.status) e.0)
      (e.1
        ∙ is
        ∙ ap
            (λ (x : AppendResult). record db {
              idempotency =
                  db.idempotency
                  ++ idempotency_row r options.operation
                      (StoredResult.message_result x.message_id x.sequence_number)
                    ∷ [];
            })
            (sym e.0))

-- A record that is appended has an open conversation of its subject.
pub append_work-outcome :
    (r : AppendMessageRecord) (options : AppendMessageOptions) (db db' : Database)
    (result : AppendResult)
    → append_work r options db ≡ ok (result, db')
    → (c : ConversationRow) × (require_conversation db r ≡ ok c) × Outcome r options db result db'
unfolding append_work
append_work-outcome r options db db' result h =
    let (c, required, h1) = >>=-eq-ok (require_conversation db r) _ h in
    (
      c,
      required,
      elim (Option-cases (
          find_idempotency_result db
            (idempotency_key_in r.context options.operation r.conversation_id r.idempotency_key))) [
              | inr (existing, is) ↦
                  replayed-outcome r options db db' result existing is (ground arith)
              | inl unused ↦
                  elim (Option-cases (
                    find_client_message db (key_in r.context r.conversation_id)
                      options.stored_client_message_id)) [
                        | inr (existing, is) ↦
                            known-outcome r options db db' result existing unused is (ground arith)
                        | inl fresh ↦
                            new unused
                              (append_new-IsAppended r options db db' result (ground arith))
                      ]
            ],
    )

-- What a transaction returns, its work has returned.
pub committed-work :
    {A : Type 0} (work : Database → Result ConversationError (A × Database)) (db db' : Database)
    (result : A)
    → in_transaction work db ≡ (ok result, db')
    → work db ≡ ok (result, db')
committed-work {A = A} work db db' result h = ended (work db) h
  where
    ended :
        (answer : Result ConversationError (A × Database))
        → in_transaction (λ start. answer) db ≡ (ok result, db')
        → answer ≡ ok (result, db')
    ended (err e) is = absurd (cc is)
    ended (ok (x, y)) is = cc is
