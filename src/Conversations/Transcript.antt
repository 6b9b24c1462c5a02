-- ===== src/Conversations/Transcript.antt =====
-- The transcript that `readConversation` of
-- apps/services/conversation-runtime/src/postgres-conversation-repository.ts returns, behind any
-- sequence of the repository's operations.
pub mod Append
use customer_service_os_lite.Common.{
  ℕ, suc, ◌+◌, Bool, true, false, not, ◌&&◌, ◌||◌, ◌≡◌, refl, sym, ap, subst, ◌∙◌, inl, inr,
  Bool-cases, Option-cases, Option, none, some, List, [], ◌∷◌, ◌++◌, map, String, str_eq,
  str_eq_iff, is_none, if◌then◌else◌, Result, ok, err, ◌>>=◌, ◌>>◌, >>=-eq-ok, throw_if-eq-ok,
  throw_if, or_throw, arith, ok-injective,
}
use customer_service_os_lite.Common.Lists.{length, find, All, keep}
use customer_service_os_lite.Common.Lists.Laws.{count_from, length-map, map-compose, All-keep}
use customer_service_os_lite.Common.Dates.{Timestamp, to_iso_string}
use customer_service_os_lite.Conversations.Types.{
  AccessContext, ProtectedMessage, TranscriptMessage, ConversationTranscript, AppendMessageRecord,
  AppendStatus, AppendResult, ConversationError,
}
use customer_service_os_lite.Conversations.Database.{
  ConversationKey, ConversationRow, PayloadRow, MessageRow, Database, same_key, find_conversation,
  find_payload, bump, allocate,
}
use customer_service_os_lite.Conversations.Append.{
  AppendMessageOptions, key_in, payload_row, message_row, append_work,
}
use customer_service_os_lite.Conversations.Append.Written.{
  IsAppended, appended, Outcome, replayed, known, new, append_work-outcome,
}
use customer_service_os_lite.Common.{or_throw-eq-ok, not-eq-false}
use customer_service_os_lite.Conversations.Repository.{
  to_protected_message, join_payloads, committed_rows, show_row, show_rows, read_conversation,
}
use customer_service_os_lite.Conversations.Repository.Rows.{
  join_payloads-more, join_payloads-snoc, committed_rows-numbered, committed_rows-messages,
  show_rows-numbers, show_rows-snoc,
}
use customer_service_os_lite.Conversations.Numbering.{
  messages_of, numbers_of, HasPayload, IsNumbered, message_reference, event_reference,
}
use customer_service_os_lite.Conversations.Run.{
  Command, run_commands, empty, empty-IsNumbered, run_commands-IsNumbered,
}

-- The outbox loses and repeats nothing: behind any sequence of operations on the empty database, its
-- events are those of the messages, one for each, in the order in which the messages were inserted,
-- with their conversation, sequence number and message id.
pub outbox_complete :
    (commands : List Command)
    → map event_reference (run_commands commands empty).outbox
      ≡ map message_reference (run_commands commands empty).messages
outbox_complete commands = (run_commands-IsNumbered commands empty empty-IsNumbered).events

module _ (unprotect : ProtectedMessage → Result ConversationError String) where
  -- What a read that returns has found.
  pub record IsRead (context : AccessContext) (conversation_id : String) (db : Database)
      (t : ConversationTranscript) : Type 0 where
    pub conversation : ConversationRow
    pub found : find_conversation db (key_in context conversation_id) ≡ some conversation
    pub subject : conversation.subject_customer_id ≡ context.subject_customer_id
    pub messages : List TranscriptMessage
    pub rows :
        show_rows unprotect (committed_rows db (key_in context conversation_id)) ≡ ok messages
    pub transcript : t ≡ record {
      conversation_id = conversation_id;
      status = conversation.status;
      control_mode = conversation.control_mode;
      messages = messages;
    }

  pub read_conversation-IsRead :
      (context : AccessContext) (conversation_id : String) (db : Database)
      (t : ConversationTranscript)
      → read_conversation unprotect context conversation_id db ≡ ok t
      → IsRead context conversation_id db t
  unfolding read_conversation
  read_conversation-IsRead context conversation_id db t h =
      let k = key_in context conversation_id in
      let (c, found, h1) =
        or_throw-eq-ok (find_conversation db k) ConversationError.conversation_unavailable _ h in
      let (ms, h2, h3) =
        >>=-eq-ok
          (throw_if (not (str_eq c.subject_customer_id context.subject_customer_id))
              ConversationError.conversation_unavailable
            >> show_rows unprotect (committed_rows db k))
          _ h1 in
      let (same, rows) =
        throw_if-eq-ok (not (str_eq c.subject_customer_id context.subject_customer_id))
          ConversationError.conversation_unavailable _ h2 in
      let iff = str_eq_iff c.subject_customer_id context.subject_customer_id in
      record {
        conversation = c;
        found = found;
        subject = iff.0 (not-eq-false _ same);
        messages = ms;
        rows = rows;
        transcript = sym (ok-injective h3);
      }

  -- A transcript has no gap: whatever operations the empty database has seen, the messages that a read
  -- returns are numbered 1, 2, 3 and so on, in this order, and they are all of the messages that the
  -- conversation has.
  pub transcript_numbered :
      (commands : List Command) (context : AccessContext) (conversation_id : String)
      (t : ConversationTranscript)
      → read_conversation unprotect context conversation_id (run_commands commands empty) ≡ ok t
      → (map (λ (m : TranscriptMessage). m.sequence_number) t.messages
          ≡ count_from 1 (length t.messages))
        × (length t.messages
            ≡ length (
                messages_of
                  (key_in context conversation_id)
                  (run_commands commands empty).messages))
  transcript_numbered commands context conversation_id t h =
      let db = run_commands commands empty in
      let k = key_in context conversation_id in
      let inv = run_commands-IsNumbered commands empty empty-IsNumbered in
      let read = read_conversation-IsRead context conversation_id db t h in
      let shown : t.messages ≡ read.messages =
        ap (λ (x : ConversationTranscript). x.messages) read.transcript in
      let numbers =
        show_rows-numbers unprotect (committed_rows db k) read.messages read.rows
        ∙ sym (
            map-compose (λ (x : MessageRow × PayloadRow). x.0)
              (λ (m : MessageRow). m.sequence_number) (committed_rows db k))
        ∙ ap numbers_of (committed_rows-messages db inv k) in
      let count : length read.messages ≡ length (messages_of k db.messages) =
        sym (length-map _ read.messages)
        ∙ ap (λ (ns : List ℕ). length ns) numbers
        ∙ length-map _ (messages_of k db.messages) in
      subst
        (λ ms.
          (map (λ (m : TranscriptMessage). m.sequence_number) ms ≡ count_from 1 (length ms))
          × (length ms ≡ length (messages_of k db.messages)))
        (sym shown) (numbers ∙ inv.numbers k ∙ ap (count_from 1) (sym count), count)
