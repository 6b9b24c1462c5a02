-- ===== src/Conversations/Transcript/Append.antt =====
-- A message that the repository of apps/services/conversation-runtime/src has accepted ends the
-- transcript.
use customer_service_os_lite.Common.{
  ℕ, ◌≡◌, refl, sym, ap, ◌∙◌, none, some, List, [], ◌∷◌, ◌++◌, String, str_eq_iff, Result, ok,
  arith,
}
use customer_service_os_lite.Common.Lists.Laws.{find-map, All-keep}
use customer_service_os_lite.Common.Dates.{Timestamp, to_iso_string}
use customer_service_os_lite.Conversations.Types.{
  Bytes, AccessContext, ProtectedMessage, TranscriptMessage, ConversationTranscript,
  AppendMessageRecord, AppendStatus, AppendResult, ConversationError,
}
use customer_service_os_lite.Conversations.Protection.{Crypto, protect_message, unprotect_message}
use customer_service_os_lite.Conversations.Protection.Laws.{IsReversible, unprotect-protect}
use customer_service_os_lite.Conversations.Database.{
  ConversationKey, ConversationRow, MessageRow, Database, same_key, find_conversation, bump,
  allocate,
}
use customer_service_os_lite.Conversations.Append.{
  AppendMessageOptions, key_in, accept_options, payload_row, message_row, append_work,
  accept_message,
}
use customer_service_os_lite.Conversations.Append.Written.{
  IsAppended, Outcome, replayed, known, new, append_work-outcome, committed-work,
}
use customer_service_os_lite.Conversations.Repository.{
  join_payloads, committed_rows, show_row, show_rows, read_conversation,
}
use customer_service_os_lite.Conversations.Repository.Rows.{
  join_payloads-more, join_payloads-snoc, committed_rows-numbered, show_rows-snoc,
}
use customer_service_os_lite.Conversations.Numbering.{
  messages_of, HasPayload, IsNumbered, messages-appended, same_key_iff, find_payload-appended,
  IsAppended-IsNumbered,
}
use customer_service_os_lite.Conversations.Run.{
  Command, run_commands, empty, empty-IsNumbered, run_commands-IsNumbered,
}
use customer_service_os_lite.Conversations.Transcript.{read_conversation-IsRead}

-- The status of an accepted message tells it from the others.
accepted-IsAppended :
    (r : AppendMessageRecord) (options : AppendMessageOptions) (db db' : Database)
    (result : AppendResult)
    → result.status ≡ AppendStatus.accepted
    → Outcome r options db result db'
    → IsAppended r options db result db'
accepted-IsAppended r options db db' result h (new unused a) = a
accepted-IsAppended r options db db' result h (replayed existing found hash stored status same) =
    absurd (cc (h, status))
accepted-IsAppended r options db db' result h (known existing found same unused status written) =
    absurd (cc (h, status))

bump-key : (k : ConversationKey) (t : ℕ) (r : ConversationRow) → (bump k t r).key ≡ r.key
bump-key k t r = ground arith

bump-shown :
    (k : ConversationKey) (t : ℕ) (c : ConversationRow)
    → ((bump k t c).subject_customer_id ≡ c.subject_customer_id)
      × ((bump k t c).status ≡ c.status)
      × ((bump k t c).control_mode ≡ c.control_mode)
bump-shown k t c = (ground arith, ground arith, ground arith)

-- The row of a conversation behind an allocation.
find_conversation-allocate :
    (db : Database) (k j : ConversationKey) (t : ℕ) (c : ConversationRow)
    → find_conversation db j ≡ some c
    → find_conversation (allocate k t db) j ≡ some (bump k t c)
find_conversation-allocate db k j t c =
    find-map (λ (r : ConversationRow). same_key r.key j) (bump k t)
      (λ r. ap (λ x. same_key x j) (bump-key k t r)) db.conversations c

committed_rows-appended :
    (r : AppendMessageRecord) (options : AppendMessageOptions) (db db' : Database)
    (result : AppendResult)
    → IsNumbered db
    → IsNumbered db'
    → (a : IsAppended r options db result db')
    → committed_rows db' (key_in r.context r.conversation_id)
      ≡ committed_rows db (key_in r.context r.conversation_id)
        ++ (message_row r options a.number, payload_row r) ∷ []
committed_rows-appended r options db db' result inv inv' a =
    let k = key_in r.context r.conversation_id in
    let row = message_row r options a.number in
    let own : messages_of k (db.messages ++ row ∷ []) ≡ messages_of k db.messages ++ row ∷ [] =
      messages-appended db inv row k
      ∙ ap (λ (ms : List MessageRow). messages_of k db.messages ++ ms)
          (let same = (same_key_iff k k).1 refl in ground arith) in
    committed_rows-numbered db' inv' k
    ∙ ap (λ (x : Database). join_payloads x.payloads (messages_of k x.messages)) a.written
    ∙ ap (join_payloads (db.payloads ++ payload_row r ∷ [])) own
    ∙ join_payloads-snoc (db.payloads ++ payload_row r ∷ []) (messages_of k db.messages) row
        (payload_row r) (find_payload-appended db.payloads r a.payload_fresh)
    ∙ ap (λ rows. rows ++ (row, payload_row r) ∷ [])
        (join_payloads-more db.payloads (payload_row r) (messages_of k db.messages)
            (All-keep (HasPayload db.payloads) _ db.messages inv.payloads)
          ∙ sym (committed_rows-numbered db inv k))

module _ (unprotect : ProtectedMessage → Result ConversationError String) where
  -- What the transcript shows of a new message.
  abbrev pub new_message :
      AppendMessageRecord → AppendMessageOptions → ℕ → String → Timestamp → TranscriptMessage
  new_message r options n text created_at = record {
    message_id = r.message_id;
    sequence_number = n;
    sender_kind = options.sender_kind;
    text = text;
    created_at = created_at;
    refund_workflow_id = none;
  }

  abbrev with_message : ConversationTranscript → TranscriptMessage → ConversationTranscript
  with_message t m = record t { messages = t.messages ++ m ∷ [] }

  show_row-new :
      (r : AppendMessageRecord) (options : AppendMessageOptions) (n : ℕ) (text : String)
      (created_at : Timestamp)
      → unprotect r.protected_message ≡ ok text
      → to_iso_string r.occurred_at ≡ some created_at
      → show_row unprotect (message_row r options n, payload_row r)
        ≡ ok (new_message r options n text created_at)
  unfolding show_row
  show_row-new r options n text created_at opens instant = ground arith

  read-is :
      (db : Database) (context : AccessContext) (conversation_id : String) (c : ConversationRow)
      (ms : List TranscriptMessage)
      → find_conversation db (key_in context conversation_id) ≡ some c
      → c.subject_customer_id ≡ context.subject_customer_id
      → show_rows unprotect (committed_rows db (key_in context conversation_id)) ≡ ok ms
      → read_conversation unprotect context conversation_id db
        ≡ ok (record {
          conversation_id = conversation_id;
          status = c.status;
          control_mode = c.control_mode;
          messages = ms;
        })
  unfolding read_conversation
  read-is db context conversation_id c ms found subject rows =
      let iff = (str_eq_iff c.subject_customer_id context.subject_customer_id).1 subject in
      ground arith

  read-appended :
      (r : AppendMessageRecord) (options : AppendMessageOptions) (db db' : Database)
      (result : AppendResult) (t : ConversationTranscript) (text : String)
      → IsNumbered db
      → IsNumbered db'
      → (a : IsAppended r options db result db') → unprotect r.protected_message ≡ ok text
      → read_conversation unprotect r.context r.conversation_id db ≡ ok t
      → read_conversation unprotect r.context r.conversation_id db'
        ≡ ok (with_message t (new_message r options a.number text a.occurred_at))
  read-appended r options db db' result t text inv inv' a opens h =
      let k = key_in r.context r.conversation_id in
      let read = read_conversation-IsRead unprotect r.context r.conversation_id db t h in
      let found : find_conversation db' k ≡ some (bump k r.occurred_at read.conversation) =
        ap (λ (x : Database). find_conversation x k) a.written
        ∙ find_conversation-allocate db k k r.occurred_at read.conversation read.found in
      let rows : show_rows unprotect (committed_rows db' k)
          ≡ ok (read.messages ++ new_message r options a.number text a.occurred_at ∷ []) =
        ap (show_rows unprotect) (committed_rows-appended r options db db' result inv inv' a)
        ∙ show_rows-snoc unprotect (committed_rows db k)
            (message_row r options a.number, payload_row r) read.messages
            (new_message r options a.number text a.occurred_at) read.rows
            (show_row-new r options a.number text a.occurred_at opens a.instant) in
      let kept = bump-shown k r.occurred_at read.conversation in
      read-is db' r.context r.conversation_id _ _ found (kept.0 ∙ read.subject) rows
      ∙ ap ok (cc (kept.1, kept.2, read.transcript))

-- A text that the repository accepts ends the transcript, as it was sent: whatever operations the
-- empty database has seen, when a customer's message, whose protected text comes from the cipher at
-- hand, is accepted as a new one, and its sender could read the conversation before, then the sender
-- can read it, and finds the earlier transcript with one more message at its end, which has the id, the
-- number and the text of the accepted one. The text and its sealed bytes
-- can be decoded and decrypted.
pub accept_message-read :
    (crypto : Crypto) (key vector : Bytes) (version text : String) (commands : List Command)
    (r : AppendMessageRecord) (result : AppendResult) (db' : Database) (t : ConversationTranscript)
    → IsReversible crypto key vector text
    → protect_message crypto key version vector text ≡ ok r.protected_message
    → accept_message r (run_commands commands empty) ≡ (ok result, db')
    → result.status ≡ AppendStatus.accepted
    → read_conversation
        (unprotect_message crypto key version)
        r.context
        r.conversation_id
        (run_commands commands empty)
      ≡ ok t
    → (m : TranscriptMessage) × (m.message_id ≡ result.message_id)
      × (m.sequence_number ≡ result.sequence_number)
      × (m.text ≡ text)
      × (read_conversation (unprotect_message crypto key version) r.context r.conversation_id db'
          ≡ ok (record t { messages = t.messages ++ m ∷ [] }))
accept_message-read crypto key vector version text commands r result db' t laws sealed h status
      before =
    let db = run_commands commands empty in
    let options = accept_options r in
    let unprotect = unprotect_message crypto key version in
    let inv = run_commands-IsNumbered commands empty empty-IsNumbered in
    let worked = committed-work (append_work r options) db db' result h in
    let a =
      accepted-IsAppended r options db db' result status
        (append_work-outcome r options db db' result worked).2 in
    let inv' = IsAppended-IsNumbered r options db db' result refl inv a in
    let opens = unprotect-protect crypto key version vector text r.protected_message laws sealed in
    (
      new_message unprotect r options a.number text a.occurred_at,
      ap (λ (x : AppendResult). x.message_id) (sym a.result_is),
      ap (λ (x : AppendResult). x.sequence_number) (sym a.result_is),
      refl,
      read-appended unprotect r options db db' result t text inv inv' a opens before,
    )
