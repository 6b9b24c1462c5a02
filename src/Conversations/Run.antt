-- ===== src/Conversations/Run.antt =====
-- Sequences of operations on the repository of apps/services/conversation-runtime/src, from the empty
-- database.
use customer_service_os_lite.Common.{
  ℕ, true, ◌≡◌, refl, sym, ap, subst, ◌∙◌, inl, inr, Option-cases, List, [], ◌∷◌, ◌++◌, map, String,
  Result, ok, err, arith,
}
use customer_service_os_lite.Common.Lists.{length, find}
use customer_service_os_lite.Common.Lists.Laws.{
  count_from, length-map, All-through, map-keep, map-map,
}
use customer_service_os_lite.Conversations.Types.{
  CreateConversationRecord, AppendMessageRecord, LinkRefundWorkflowRecord, AppendResult,
  CreateResult, LinkResult, ConversationError,
}
use customer_service_os_lite.Conversations.Database.{
  ConversationKey, ConversationRow, MessageRow, Database, same_key, in_transaction, IdempotencyRow,
  set_workflow,
}
use customer_service_os_lite.Conversations.Append.{
  AppendMessageOptions, key_in, accept_options, assistant_options, append_work, accept_message,
  append_assistant_message, message_row,
}
use customer_service_os_lite.Conversations.Repository.Written.{
  create_work-writes, with_idempotency, link_work-writes,
}
use customer_service_os_lite.Conversations.Append.Written.{
  replayed, known, new, append_work-outcome,
}
use customer_service_os_lite.Conversations.Repository.{
  create_conversation, create_work, conversation_row, link_refund_workflow, link_work,
  with_workflow, link_row, is_shown,
}
use customer_service_os_lite.Conversations.Numbering.{
  messages_of, numbers_of, next_number, IsNumbered, message_reference, IsAppended-IsNumbered,
}

pub data Command : Type 0 where
  create : CreateConversationRecord → Command
  accept assistant : AppendMessageRecord → Command
  link : LinkRefundWorkflowRecord → Command

-- The database behind a command, whether it returned or was rolled back.
unfoldable pub apply : Command → Database → Database
unfolding append_work create_work link_work
apply (Command.create r) db = (create_conversation r db).1
apply (Command.accept r) db = (accept_message r db).1
apply (Command.assistant r) db = (append_assistant_message r db).1
apply (Command.link r) db = (link_refund_workflow r db).1

unfoldable pub run_commands : List Command → Database → Database
unfolding apply
run_commands [] db = db
run_commands (c ∷ cs) db = run_commands cs (apply c db)

abbrev pub empty : Database
empty = record { conversations = []; payloads = []; messages = []; idempotency = []; outbox = [] }

pub empty-IsNumbered : IsNumbered empty
empty-IsNumbered = record {
  numbers = λ k. refl;
  counter = λ k. refl;
  shown = tt;
  payloads = tt;
  events = refl;
}

-- A conversation that starts at 1 moves no counter.
create-counter :
    (rows : List ConversationRow) (row : ConversationRow) (k : ConversationKey)
    → row.next_sequence_number ≡ 1
    → next_number (find (λ (r : ConversationRow). same_key r.key k) (rows ++ row ∷ []))
      ≡ next_number (find (λ (r : ConversationRow). same_key r.key k) rows)
create-counter [] row k h = ground arith
create-counter (r ∷ rows) row k h = let rest = create-counter rows row k h in ground arith

same-length : (xs ys : List MessageRow) → numbers_of xs ≡ numbers_of ys → length xs ≡ length ys
same-length xs ys h = sym (length-map _ xs) ∙ ap (λ (ns : List ℕ). length ns) h ∙ length-map _ ys

create-IsNumbered :
    (r : CreateConversationRecord) (db db' : Database) (result : CreateResult)
    → IsNumbered db
    → create_work r db ≡ ok (result, db')
    → IsNumbered db'
create-IsNumbered r db db' result inv h = elim (create_work-writes r db db' result h) [
  | inl same ↦ subst IsNumbered (sym same) inv
  | inr (unknown, written) ↦ subst IsNumbered (sym written) (record {
    numbers = inv.numbers;
    counter = λ k. create-counter db.conversations (conversation_row r) k refl ∙ inv.counter k;
    shown = inv.shown;
    payloads = inv.payloads;
    events = inv.events;
  })
]

module _ (k : ConversationKey) (message_id workflow_id : String) where
  -- A link touches the workflow of a message only.
  set_workflow-key : (m : MessageRow) → (set_workflow k message_id workflow_id m).key ≡ m.key
  set_workflow-key m = ground arith

  set_workflow-payload_id :
      (m : MessageRow) → (set_workflow k message_id workflow_id m).payload_id ≡ m.payload_id
  set_workflow-payload_id m = ground arith

  linked-numbers :
      (j : ConversationKey) (ms : List MessageRow)
      → numbers_of (messages_of j (map (set_workflow k message_id workflow_id) ms))
        ≡ numbers_of (messages_of j ms)
  linked-numbers j = map-keep _ _ _ (λ m. ground arith) (λ m. ground arith)

  linked-IsNumbered :
      (db : Database)
      → IsNumbered db
      → IsNumbered
          (record db { messages = map (set_workflow k message_id workflow_id) db.messages })
  linked-IsNumbered db inv =
      let numbers = λ (j : ConversationKey). linked-numbers j db.messages in
      let lengths : (j : ConversationKey)
          → length (messages_of j (map (set_workflow k message_id workflow_id) db.messages))
            ≡ length (messages_of j db.messages) =
        λ j. same-length _ _ (numbers j) in
      record {
        numbers = λ j. numbers j ∙ inv.numbers j ∙ ap (count_from 1) (sym (lengths j));
        counter = λ j. (let same = lengths j in let before = inv.counter j in omega arith);
        shown = All-through _ (λ m h. ground arith) db.messages inv.shown;
        payloads =
            All-through _ (λ m h. (h.0, cc (set_workflow-key m, set_workflow-payload_id m) ∙ h.1))
              db.messages inv.payloads;
        events = inv.events ∙ sym (map-map _ message_reference (λ m. ground arith) db.messages);
      }

with_idempotency-IsNumbered :
    (db : Database) (row : IdempotencyRow) → IsNumbered db → IsNumbered (with_idempotency db row)
with_idempotency-IsNumbered db row inv = record {
  numbers = inv.numbers;
  counter = inv.counter;
  shown = inv.shown;
  payloads = inv.payloads;
  events = inv.events;
}

with_workflow-IsNumbered :
    (r : LinkRefundWorkflowRecord) (message : MessageRow) (db : Database)
    → IsNumbered db
    → IsNumbered (with_workflow r message db)
with_workflow-IsNumbered r message db inv = elim (Option-cases message.refund_workflow_id) [
  | inl unlinked ↦
      let linked =
        linked-IsNumbered (key_in r.context r.conversation_id) r.message_id r.workflow_id db inv in
      rw unlinked linked
  | inr (w, is) ↦ rw is inv
]

link-IsNumbered :
    (r : LinkRefundWorkflowRecord) (db db' : Database) (result : LinkResult)
    → IsNumbered db
    → link_work r db ≡ ok (result, db')
    → IsNumbered db'
link-IsNumbered r db db' result inv h = elim (link_work-writes r db db' result h) [
  | inl same ↦ subst IsNumbered (sym same) inv
  | inr (message, required, matches, written) ↦
      subst IsNumbered (sym written)
        (with_idempotency-IsNumbered _ (link_row r) (with_workflow-IsNumbered r message db inv))
]

append-IsNumbered :
    (r : AppendMessageRecord) (options : AppendMessageOptions) (db db' : Database)
    (result : AppendResult)
    → is_shown (message_row r options 0) ≡ true
    → IsNumbered db
    → append_work r options db ≡ ok (result, db')
    → IsNumbered db'
append-IsNumbered r options db db' result visible inv h =
    let (c, required, outcome) = append_work-outcome r options db db' result h in
    elim outcome [
      | replayed existing found hash stored status same ↦ subst IsNumbered (sym same) inv
      | known existing found same unused status written ↦
          subst IsNumbered (sym written) (with_idempotency-IsNumbered db _ inv)
      | new unused a ↦ IsAppended-IsNumbered r options db db' result visible inv a
    ]

-- What a transaction keeps where its work returns, it keeps.
in_transaction-keeps :
    {A : Type 0} (P : Database → Type 0) (work : Database → Result ConversationError (A × Database))
    (db : Database)
    → P db
    → ((result : A) (db' : Database) → work db ≡ ok (result, db') → P db')
    → P (in_transaction work db).1
in_transaction-keeps {A = A} P work db before keeps = ended (work db) keeps
  where
    ended :
        (answer : Result ConversationError (A × Database))
        → ((result : A) (db' : Database) → answer ≡ ok (result, db') → P db')
        → P (in_transaction (λ start. answer) db).1
    ended (err e) kept = before
    ended (ok (result, db')) kept = kept result db' refl

pub apply-IsNumbered : (c : Command) (db : Database) → IsNumbered db → IsNumbered (apply c db)
unfolding apply
apply-IsNumbered (Command.create r) db inv =
    in_transaction-keeps IsNumbered (create_work r) db inv
      (λ result db' h. create-IsNumbered r db db' result inv h)
apply-IsNumbered (Command.accept r) db inv =
    in_transaction-keeps IsNumbered (append_work r (accept_options r)) db inv
      (λ result db' h. append-IsNumbered r (accept_options r) db db' result refl inv h)
apply-IsNumbered (Command.assistant r) db inv =
    in_transaction-keeps IsNumbered (append_work r (assistant_options r)) db inv
      (λ result db' h. append-IsNumbered r (assistant_options r) db db' result refl inv h)
apply-IsNumbered (Command.link r) db inv =
    in_transaction-keeps IsNumbered (link_work r) db inv
      (λ result db' h. link-IsNumbered r db db' result inv h)

pub run_commands-IsNumbered :
    (cs : List Command) (db : Database) → IsNumbered db → IsNumbered (run_commands cs db)
unfolding run_commands
run_commands-IsNumbered [] db inv = inv
run_commands-IsNumbered (c ∷ cs) db inv =
    run_commands-IsNumbered cs (apply c db) (apply-IsNumbered c db inv)
