-- ===== src/Conversations/Repository/Rows.antt =====
-- The query of `readConversation` in
-- apps/services/conversation-runtime/src/postgres-conversation-repository.ts on a well-formed database.

use customer_service_os_lite.Common.{
  ℕ, suc, true, ◌&&◌, ◌≡◌, refl, sym, ap, subst, ◌∙◌, inl, inr, Option-cases, some, List, [], ◌∷◌,
  ◌++◌, map, String, leb, Result, ok, >>=-eq-ok, ok-injective, arith,
}
use customer_service_os_lite.Common.Lists.{length, keep, All}
use customer_service_os_lite.Common.Lists.Laws.{
  count_from, find-append-some, All-keep, length-map, map-compose,
}
use customer_service_os_lite.Common.Sort.{sort_by, insert_by}
use customer_service_os_lite.Conversations.Types.{
  ProtectedMessage, TranscriptMessage, ConversationError,
}
use customer_service_os_lite.Conversations.Database.{
  ConversationKey, PayloadRow, MessageRow, Database, same_key, find_payload,
}
use customer_service_os_lite.Common.Dates.{to_iso_string}
use customer_service_os_lite.Common.{or_throw-eq-ok}
use customer_service_os_lite.Conversations.Numbering.{
  HasPayload, messages_of, numbers_of, IsNumbered,
}
use customer_service_os_lite.Conversations.Repository.{
  is_shown, to_protected_message, join_payloads, committed_rows, show_row, show_rows,
}

insert_by-in_front :
    {A : Type 0} (f : A → ℕ) (x : A) (ys : List A)
    → map f ys ≡ count_from (suc (f x)) (length ys)
    → insert_by (λ x y. leb (f x) (f y)) x ys ≡ x ∷ ys
unfolding insert_by
insert_by-in_front f x [] h = refl
insert_by-in_front f x (y ∷ ys) h = let next : f y ≡ suc (f x) = cc h in ground arith

-- A list that is numbered without a gap is sorted.
pub sort_by-numbered :
    {A : Type 0} (f : A → ℕ) (first : ℕ) (xs : List A)
    → map f xs ≡ count_from first (length xs)
    → sort_by (λ x y. leb (f x) (f y)) xs ≡ xs
unfolding sort_by
sort_by-numbered f first [] h = refl
sort_by-numbered f first (x ∷ xs) h =
    let head : f x ≡ first = cc h in
    let more : map f xs ≡ count_from (suc first) (length xs) = cc h in
    ap (insert_by (λ x y. leb (f x) (f y)) x) (sort_by-numbered f (suc first) xs more)
    ∙ insert_by-in_front f x xs
        (subst (λ n. map f xs ≡ count_from (suc n) (length xs)) (sym head) more)

module _ (payloads : List PayloadRow) where
  -- Every message with a payload is in the join, in its place.
  pub join_payloads-messages :
      (ms : List MessageRow)
      → All (HasPayload payloads) ms
      → map (λ (row : MessageRow × PayloadRow). row.0) (join_payloads payloads ms) ≡ ms
  unfolding join_payloads
  join_payloads-messages [] hs = refl
  join_payloads-messages (m ∷ ms) (h, hs) =
      let rest = join_payloads-messages ms hs in let there = h.1 in ground arith

  pub join_payloads-more :
      (p : PayloadRow) (ms : List MessageRow)
      → All (HasPayload payloads) ms
      → join_payloads (payloads ++ p ∷ []) ms ≡ join_payloads payloads ms
  unfolding join_payloads
  join_payloads-more p [] hs = refl
  join_payloads-more p (m ∷ ms) (h, hs) =
      let rest = join_payloads-more p ms hs in
      let there = h.1 in let still = find-append-some _ payloads (p ∷ []) h.0 h.1 in ground arith

  pub join_payloads-snoc :
      (ms : List MessageRow) (m : MessageRow) (p : PayloadRow)
      → find_payload payloads m.key m.payload_id ≡ some p
      → join_payloads payloads (ms ++ m ∷ []) ≡ join_payloads payloads ms ++ (m, p) ∷ []
  unfolding join_payloads
  join_payloads-snoc [] m p h = ground arith
  join_payloads-snoc (x ∷ ms) m p h =
      let rest = join_payloads-snoc ms m p h in
      elim (Option-cases (find_payload payloads x.key x.payload_id)) [
        | inl absent ↦ ground arith
        | inr (q, is) ↦ ground arith
      ]

keep-shown :
    (k : ConversationKey) (ms : List MessageRow)
    → All (λ m. is_shown m ≡ true) ms
    → keep (λ m. same_key m.key k && is_shown m) ms ≡ keep (λ m. same_key m.key k) ms
keep-shown k [] hs = refl
keep-shown k (m ∷ ms) (h, hs) = let rest = keep-shown k ms hs in ground arith

module _ (db : Database) (inv : IsNumbered db) (k : ConversationKey) where
  -- Of a well-formed database the query gives the messages of the conversation as they were inserted.
  pub committed_rows-numbered :
      committed_rows db k ≡ join_payloads db.payloads (messages_of k db.messages)
  unfolding committed_rows
  committed_rows-numbered =
      let rows = join_payloads db.payloads (messages_of k db.messages) in
      let whole =
        join_payloads-messages db.payloads (messages_of k db.messages)
          (All-keep (HasPayload db.payloads) _ db.messages inv.payloads) in
      let count : map (λ (x : MessageRow × PayloadRow). x.0.sequence_number) rows
          ≡ count_from 1 (length rows) =
        sym (
          map-compose (λ (x : MessageRow × PayloadRow). x.0) (λ (m : MessageRow). m.sequence_number)
            rows)
        ∙ ap numbers_of whole
        ∙ inv.numbers k
        ∙ ap (λ (ms : List MessageRow). count_from 1 (length ms)) (sym whole)
        ∙ ap (count_from 1) (length-map _ rows) in
      ap
        (λ ms.
          sort_by (λ (x y : MessageRow × PayloadRow). leb x.0.sequence_number y.0.sequence_number)
            (join_payloads db.payloads ms))
        (keep-shown k db.messages inv.shown)
      ∙ sort_by-numbered (λ (x : MessageRow × PayloadRow). x.0.sequence_number) 1 rows count

  pub committed_rows-messages :
      map (λ (row : MessageRow × PayloadRow). row.0) (committed_rows db k)
      ≡ messages_of k db.messages
  committed_rows-messages =
      ap (map (λ (row : MessageRow × PayloadRow). row.0)) committed_rows-numbered
      ∙ join_payloads-messages db.payloads (messages_of k db.messages)
          (All-keep (HasPayload db.payloads) _ db.messages inv.payloads)

module _ (unprotect : ProtectedMessage → Result ConversationError String) where
  show_row-number :
      (row : MessageRow × PayloadRow) (m : TranscriptMessage)
      → show_row unprotect row ≡ ok m
      → m.sequence_number ≡ row.0.sequence_number
  unfolding show_row
  show_row-number row m h =
      let (text, opened, h1) = >>=-eq-ok (unprotect (to_protected_message row.0 row.1)) _ h in
      let (t, instant, h2) =
        or_throw-eq-ok (to_iso_string row.0.created_at) ConversationError.range_error _ h1 in
      ap (λ (x : TranscriptMessage). x.sequence_number) (sym (ok-injective h2))

  pub show_rows-numbers :
      (rows : List (MessageRow × PayloadRow)) (ms : List TranscriptMessage)
      → show_rows unprotect rows ≡ ok ms
      → map (λ (m : TranscriptMessage). m.sequence_number) ms
        ≡ map (λ (x : MessageRow × PayloadRow). x.0.sequence_number) rows
  unfolding show_rows
  show_rows-numbers [] ms h =
      let none_there : [] ≡ ms = cc h in
      ap (map (λ (m : TranscriptMessage). m.sequence_number)) (sym none_there)
  show_rows-numbers (row ∷ rows) ms h =
      let (m, shown, h1) = >>=-eq-ok (show_row unprotect row) _ h in
      let (rest, more, h2) = >>=-eq-ok (show_rows unprotect rows) (λ ms. ok (m ∷ ms)) h1 in
      let tail = show_rows-numbers rows rest more in
      let all : m ∷ rest ≡ ms = cc h2 in
      let number = show_row-number row m shown in
      ap (map (λ (m : TranscriptMessage). m.sequence_number)) (sym all) ∙ cc (tail, number)

  pub show_rows-snoc :
      (rows : List (MessageRow × PayloadRow)) (row : MessageRow × PayloadRow)
      (ms : List TranscriptMessage) (m : TranscriptMessage)
      → show_rows unprotect rows ≡ ok ms
      → show_row unprotect row ≡ ok m
      → show_rows unprotect (rows ++ row ∷ []) ≡ ok (ms ++ m ∷ [])
  unfolding show_rows
  show_rows-snoc [] row ms m h shown = ground arith
  show_rows-snoc (x ∷ rows) row ms m h shown =
      let (y, first, h1) = >>=-eq-ok (show_row unprotect x) _ h in
      let (rest, more, h2) = >>=-eq-ok (show_rows unprotect rows) (λ zs. ok (y ∷ zs)) h1 in
      let tail = show_rows-snoc rows row rest m more shown in ground arith
