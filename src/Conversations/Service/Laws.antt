-- ===== src/Conversations/Service/Laws.antt =====
-- The bound on texts, and the errors, of apps/services/conversation-runtime/src/conversation-service.ts.
use customer_service_os_lite.Common.{
  ◌≤◌, ◌≡◌, ◌⊎◌, refl, inl, inr, Bool-cases, ltb, Result, Result-cases, ok, err, arith,
}
use customer_service_os_lite.Common.Lists.{length}
use customer_service_os_lite.Conversations.Types.{
  AcceptedMessage, AppendMessageRecord, ConversationError,
}
use customer_service_os_lite.Conversations.Database.{Database, in_transaction}
use customer_service_os_lite.Conversations.Append.{
  AppendMessageOptions, append_work, append_message,
}
use customer_service_os_lite.Conversations.Service.{
  Environment, State, MessageInput, max_message_bytes, message_record, send,
}

-- A transaction that ends in an error leaves the database as it was.
in_transaction-err :
    {A : Type 0} (work : Database → Result ConversationError (A × Database)) (db : Database)
    (e : ConversationError)
    → (in_transaction work db).0 ≡ err e
    → (in_transaction work db).1 ≡ db
in_transaction-err {A = A} work db e h = rolled (work db) h
  where
    rolled :
        (answer : Result ConversationError (A × Database))
        → (in_transaction (λ start. answer) db).0 ≡ err e
        → (in_transaction (λ start. answer) db).1 ≡ db
    rolled (err x) is = refl
    rolled (ok (a, written)) is = absurd (cc is)

module _ (env : Environment) (options : AppendMessageRecord → AppendMessageOptions)
    (input : MessageInput) (s : State) where
  abbrev pub Answer : Type 0
  Answer = Result ConversationError AcceptedMessage × State

  -- The text of what is accepted is within the bound; an error has changed no row.
  abbrev pub IsSafe : Answer → Type 0
  IsSafe answer =
      ((a : AcceptedMessage) × (answer.0 ≡ ok a)
        × (length (env.crypto.encode input.text) ≤ max_message_bytes))
      ⊎ ((e : ConversationError) × (answer.0 ≡ err e) × (answer.1.database ≡ s.database))

  -- A message that the service takes has at most 32 KiB of text; whenever it throws instead, be it for
  -- a longer text, for the protection of the text or for what the repository throws, the database is
  -- the one before the call.
  pub send-IsSafe : IsSafe (send env options input s)
  unfolding send
  send-IsSafe = elim (Bool-cases (ltb max_message_bytes (length (env.crypto.encode input.text)))) [
    | inl long ↦ inr (ConversationError.message_too_large, ground arith, ground arith)
    | inr short ↦
        let within : length (env.crypto.encode input.text) ≤ max_message_bytes = ground arith in
        elim (Result-cases (env.protect (env.vectors s.vectors_taken) input.text)) [
          | inl (e, unprotected) ↦ inr (e, ground arith, ground arith)
          | inr (m, protects) ↦
              let r = message_record env input m s in
              elim (Result-cases (append_message r (options r) s.database).0) [
                | inl (e, is) ↦
                    let kept = in_transaction-err (append_work r (options r)) s.database e is in
                    inr (e, ground arith, ground arith)
                | inr (a, is) ↦ inl (
                  record {
                    conversation_id = input.conversation_id;
                    message_id = a.message_id;
                    sequence_number = a.sequence_number;
                  },
                  ground arith,
                  within,
                )
              ]
        ]
  ]
