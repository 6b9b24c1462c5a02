-- ===== src/Conversations/Numbering.antt =====
-- The invariant of the database of apps/services/conversation-runtime/src: the messages of a
-- conversation are numbered from 1 without a gap, its counter stands behind the last of them, each has
-- its payload, and the outbox has its event.
use mathlib.Core.List.{append-nil}
use customer_service_os_lite.Common.{
  ℕ, suc, ◌+◌, true, false, ◌≡◌, ◌↔◌, refl, sym, ap, subst, ◌∙◌, inl, inr, Option-cases, Bool-cases,
  Option, none, some, List, [], ◌∷◌, ◌++◌, map, String, str_eq_iff, is_none, if◌then◌else◌, ok,
  arith,
}
use customer_service_os_lite.Common.Lists.{length, keep, find, All, All-append, length-append}
use customer_service_os_lite.Common.Lists.Laws.{
  count_from, count_from-snoc, keep-append, find-append-some, find-append-none, All-map, map-snoc,
}
use customer_service_os_lite.Conversations.Types.{AppendMessageRecord, AppendResult}
use customer_service_os_lite.Conversations.Database.{
  ConversationKey, ConversationRow, PayloadRow, MessageRow, OutboxRow, Database, same_key,
  find_conversation, find_payload, bump, allocate,
}
use customer_service_os_lite.Conversations.Append.{
  AppendMessageOptions, key_in, allocated_number, payload_row, message_row, outbox_row,
}
use customer_service_os_lite.Conversations.Append.Written.{IsAppended}
use customer_service_os_lite.Conversations.Repository.{is_shown}

abbrev pub messages_of : ConversationKey → List MessageRow → List MessageRow
messages_of k ms = keep (λ m. same_key m.key k) ms

abbrev pub numbers_of : List MessageRow → List ℕ
numbers_of ms = map (λ (m : MessageRow). m.sequence_number) ms

-- The next number of a conversation; a conversation that is not there would start with 1.
abbrev pub next_number : Option ConversationRow → ℕ
next_number none = 1
next_number (some c) = c.next_sequence_number

-- What ties an event to its message.
abbrev pub Reference : Type 0
Reference = ConversationKey × (ℕ × String)

abbrev pub message_reference : MessageRow → Reference
message_reference m = (m.key, (m.sequence_number, m.message_id))

abbrev pub event_reference : OutboxRow → Reference
event_reference e = (e.key, (e.aggregate_sequence, e.message_id))

abbrev pub HasPayload : List PayloadRow → MessageRow → Type 0
HasPayload payloads m = (p : PayloadRow) × (find_payload payloads m.key m.payload_id ≡ some p)

pub record IsNumbered (db : Database) : Type 0 where
  pub numbers :
      (k : ConversationKey)
      → numbers_of (messages_of k db.messages) ≡ count_from 1 (length (messages_of k db.messages))
  pub counter :
      (k : ConversationKey)
      → next_number (find_conversation db k) ≡ suc (length (messages_of k db.messages))
  pub shown : All (λ m. is_shown m ≡ true) db.messages
  pub payloads : All (HasPayload db.payloads) db.messages
  pub events : map event_reference db.outbox ≡ map message_reference db.messages

pub same_key_iff : (a b : ConversationKey) → (same_key a b ≡ true) ↔ (a ≡ b)
same_key_iff a b =
    let t = str_eq_iff a.tenant_id b.tenant_id in
    let e = str_eq_iff a.environment_id b.environment_id in
    let c = str_eq_iff a.conversation_id b.conversation_id in (λ h. ground arith, λ h. ground arith)

find-bump :
    (k j : ConversationKey) (t : ℕ) (rs : List ConversationRow)
    → next_number (find (λ (r : ConversationRow). same_key r.key j) (map (bump k t) rs))
      ≡ next_number (find (λ (r : ConversationRow). same_key r.key j) rs)
        + (if is_none (find (λ (r : ConversationRow). same_key r.key j) rs)
            then 0
            else if same_key j k
            then 1
            else 0)
find-bump k j t [] = refl
find-bump k j t (r ∷ rs) =
    let rest = find-bump k j t rs in
    let here = same_key_iff r.key j in
    elim (Bool-cases (same_key r.key j)) [
      | inl h ↦ let is = here.0 h in ground arith
      | inr h ↦ ground arith
    ]

allocated_number-is :
    (db : Database) (k : ConversationKey) (t n : ℕ)
    → allocated_number (allocate k t db) k ≡ ok n
    → (n ≡ next_number (find_conversation db k)) × (is_none (find_conversation db k) ≡ false)
allocated_number-is db k t n h =
    let moved = find-bump k k t db.conversations in
    let same = (same_key_iff k k).1 refl in
    elim (Option-cases (find_conversation (allocate k t db) k)) [
      | inl absent ↦ absurd (ground arith)
      | inr (c, is) ↦ elim (Option-cases (find_conversation db k)) [
        | inl unknown ↦ absurd (ground arith)
        | inr (old, was) ↦ (ground arith, ground arith)
      ]
    ]

abbrev ListIsNumbered : List MessageRow → Type 0
ListIsNumbered ms = numbers_of ms ≡ count_from 1 (length ms)

ListIsNumbered-snoc :
    (ms : List MessageRow) (row : MessageRow)
    → ListIsNumbered ms
    → row.sequence_number ≡ suc (length ms)
    → ListIsNumbered (ms ++ row ∷ [])
ListIsNumbered-snoc ms row h next =
    let longer : suc (length ms) ≡ length (ms ++ row ∷ []) =
      omega (arith, length-append ms (row ∷ [])) in
    let follows : row.sequence_number ≡ 1 + length ms = omega (arith, next) in
    map-snoc (λ (m : MessageRow). m.sequence_number) ms row
    ∙ ap (λ (ns : List ℕ). ns ++ row.sequence_number ∷ []) h
    ∙ ap (λ (n : ℕ). count_from 1 (length ms) ++ n ∷ []) follows
    ∙ sym (count_from-snoc 1 (length ms))
    ∙ ap (count_from 1) longer

module _ (db : Database) (inv : IsNumbered db) (row : MessageRow) where
  pub messages-appended :
      (j : ConversationKey)
      → messages_of j (db.messages ++ row ∷ [])
        ≡ messages_of j db.messages ++ (if same_key row.key j then row ∷ [] else [])
  messages-appended j =
      keep-append (λ (m : MessageRow). same_key m.key j) db.messages (row ∷ [])
      ∙ ap (λ (ms : List MessageRow). messages_of j db.messages ++ ms) (ground arith)

  -- The messages of a conversation that the row joins, and of one that it does not.
  numbers-appended :
      (j : ConversationKey)
      → row.sequence_number ≡ suc (length (messages_of row.key db.messages))
      → ListIsNumbered (messages_of j (db.messages ++ row ∷ []))
        × (length (messages_of j (db.messages ++ row ∷ []))
            ≡ length (messages_of j db.messages) + (if same_key row.key j then 1 else 0))
  numbers-appended j next =
      let rows = messages-appended j in
      elim (Bool-cases (same_key row.key j)) [
        | inl here ↦
            let is = (same_key_iff row.key j).0 here in
            let joined : messages_of j (db.messages ++ row ∷ [])
                ≡ messages_of j db.messages ++ row ∷ [] =
              rows ∙ ground arith in
            let next' : row.sequence_number ≡ suc (length (messages_of j db.messages)) =
              subst (λ x. row.sequence_number ≡ suc (length (messages_of x db.messages))) is next in
            (
              subst ListIsNumbered (sym joined)
                  (ListIsNumbered-snoc (messages_of j db.messages) row (inv.numbers j) next'),
              ap (λ (ms : List MessageRow). length ms) joined
                  ∙ length-append (messages_of j db.messages) (row ∷ [])
                  ∙ ground arith,
            )
        | inr elsewhere ↦
            let same : messages_of j (db.messages ++ row ∷ []) ≡ messages_of j db.messages =
              rows
              ∙ ap (λ (ms : List MessageRow). messages_of j db.messages ++ ms) (ground arith)
              ∙ append-nil (messages_of j db.messages) in
            (
              subst ListIsNumbered (sym same) (inv.numbers j),
              ap (λ (ms : List MessageRow). length ms) same ∙ ground arith,
            )
      ]

counter-appended :
    (db : Database) (k j : ConversationKey) (t : ℕ)
    → is_none (find_conversation db k) ≡ false
    → next_number (find_conversation (allocate k t db) j)
      ≡ next_number (find_conversation db j) + (if same_key k j then 1 else 0)
counter-appended db k j t there =
    let moved = find-bump k j t db.conversations in
    let iff = same_key_iff k j in
    let back = same_key_iff j k in
    elim (Bool-cases (same_key k j)) [
      | inl h ↦
          let is = iff.0 h in
          let again = back.1 (sym is) in
          let known : is_none (find_conversation db j) ≡ false =
            subst (λ x. is_none (find_conversation db x) ≡ false) is there in
          ground arith
      | inr h ↦
          let apart : same_key j k ≡ false = elim (Bool-cases (same_key j k)) [
            | inl e ↦ let is = iff.1 (sym (back.0 e)) in absurd (ground arith)
            | inr e ↦ e
          ] in
          elim (Bool-cases (is_none (find_conversation db j))) [
            | inl a ↦ ground arith
            | inr a ↦ ground arith
          ]
    ]

HasPayload-append :
    (payloads : List PayloadRow) (p : PayloadRow) (ms : List MessageRow)
    → All (HasPayload payloads) ms
    → All (HasPayload (payloads ++ p ∷ [])) ms
HasPayload-append payloads p = All-map (λ m h. (h.0, find-append-some _ payloads (p ∷ []) h.0 h.1))

pub find_payload-appended :
    (payloads : List PayloadRow) (r : AppendMessageRecord)
    → find_payload payloads (key_in r.context r.conversation_id) r.payload_id ≡ none
    → find_payload
        (payloads ++ payload_row r ∷ [])
        (key_in r.context r.conversation_id)
        r.payload_id
      ≡ some (payload_row r)
find_payload-appended payloads r fresh =
    let t = (str_eq_iff r.context.tenant_id r.context.tenant_id).1 refl in
    let e = (str_eq_iff r.context.environment_id r.context.environment_id).1 refl in
    let p = (str_eq_iff r.payload_id r.payload_id).1 refl in
    find-append-none _ payloads (payload_row r ∷ []) fresh ∙ ground arith

pub IsAppended-IsNumbered :
    (r : AppendMessageRecord) (options : AppendMessageOptions) (db db' : Database)
    (result : AppendResult)
    → is_shown (message_row r options 0) ≡ true
    → IsNumbered db
    → IsAppended r options db result db'
    → IsNumbered db'
IsAppended-IsNumbered r options db db' result visible inv a =
    let k = key_in r.context r.conversation_id in
    let row = message_row r options a.number in
    let (number, there) = allocated_number-is db k r.occurred_at a.number a.allocated in
    let next : a.number ≡ suc (length (messages_of k db.messages)) = number ∙ inv.counter k in
    subst IsNumbered (sym a.written) (record {
      numbers = λ j. (numbers-appended db inv row j next).0;
      counter = λ j.
          (let moved = counter-appended db k j r.occurred_at there in
            let longer = (numbers-appended db inv row j next).1 in
            let before = inv.counter j in omega arith);
      shown = All-append (λ m. is_shown m ≡ true) db.messages (row ∷ []) inv.shown (visible, tt);
      payloads =
          All-append _ db.messages (row ∷ [])
            (HasPayload-append db.payloads (payload_row r) db.messages inv.payloads)
            ((payload_row r, find_payload-appended db.payloads r a.payload_fresh), tt);
      events =
          map-snoc event_reference db.outbox (outbox_row r options a.number a.occurred_at)
          ∙ ap (λ (es : List Reference). es ++ message_reference row ∷ []) inv.events
          ∙ sym (map-snoc message_reference db.messages row);
    })
