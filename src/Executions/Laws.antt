-- ===== src/Executions/Laws.antt =====
-- Idempotency of the in-memory refund executions
-- (apps/services/integration-gateway/src/refund-execution-repository.ts), and that a refund whose end is
-- known keeps it.
use customer_service_os_lite.Common.{
  ℕ, Bool, true, false, ◌≡◌, refl, inl, inr, Option, none, some, List, [], ◌∷◌, String, arith,
  Bool-cases, Option-cases, sym, ap, ◌∙◌,
}
use customer_service_os_lite.Common.Lists.{All}
use customer_service_os_lite.Executions.Runs.{
  Operation, IsKnown, IsOther, run_operations, run_operations-IsKnown, run_operations-pending,
}
use customer_service_os_lite.Common.Maps.{map_get, get-set-same}
use customer_service_os_lite.Executions.{
  ReserveInput, ProviderEventInput, Execution, Ledger, Reservation, Receipt, PendingEvent, reserve,
  reservation_key, find_value, change_found, is_terminal, has_provider_id, closing, new_execution,
  pending_event, receive, record_provider_refund_event, public_view, RefundExecution,
}

reserve-IsKnown_new :
    (s s' : Ledger) (i : ReserveInput) (id first : String)
    → reserve s i id ≡ (Reservation.reserved first, s')
    → IsKnown s' (reservation_key i) first
unfolding reserve
reserve-IsKnown_new s s' i id first h =
    let kept =
      get-set-same (reservation_key i) (new_execution i (reservation_key i) id) s.executions in
    record {
      execution = new_execution i (reservation_key i) id;
      stored = ground arith;
      named = ground arith;
    }

pub reserve_known :
    (s : Ledger) (i : ReserveInput) (id : String) (e : Execution)
    → map_get (reservation_key i) s.executions ≡ some e
    → reserve s i id ≡ (Reservation.existing (public_view e), s)
unfolding reserve
reserve_known s i id e h = ground arith

-- A key is reserved once: when a reservation has given a new execution, then behind any further
-- reservations, outcomes, events of the provider and marks of delivery, a reservation under the same
-- key, whatever else it asks for, gives the execution with the first one's id, and changes nothing.
pub reserve_twice :
    (s s' : Ledger) (i j : ReserveInput) (id id' first : String) (os : List Operation)
    → reserve s i id ≡ (Reservation.reserved first, s')
    → reservation_key j ≡ reservation_key i
    → (e : RefundExecution) × (reserve (run_operations os s') j id'
        ≡ (Reservation.existing e, run_operations os s'))
      × (e.execution_id ≡ first)
reserve_twice s s' i j id id' first os h same =
    let known =
      run_operations-IsKnown os s' (reservation_key i) first
        (reserve-IsKnown_new s s' i id first h) in
    (
      public_view known.execution,
      reserve_known (run_operations os s') j id' known.execution
          (ap (λ k. map_get k (run_operations os s').executions) same ∙ known.stored),
      known.named,
    )

change_found-keeps :
    (test : Execution → Bool) (change : Execution → Execution) (key : String)
    (m : List (String × Execution)) (e x : Execution)
    → find_value test m ≡ some e
    → is_terminal e.status ≡ false
    → is_terminal x.status ≡ true
    → map_get key m ≡ some x
    → map_get key (change_found test change m) ≡ some x
unfolding find_value change_found map_get
change_found-keeps test change key [] e x found live ended there = ground arith
change_found-keeps test change key ((k, v) ∷ m) e x found live ended there =
    ground (arith, change_found-keeps test change key m e x)

receive-kept :
    (s : Ledger) (i : ProviderEventInput) (now : ℕ) (key : String) (x : Execution)
    (o : Option Execution)
    → find_value (has_provider_id i.provider_refund_id) s.executions ≡ o
    → map_get key s.executions ≡ some x
    → is_terminal x.status ≡ true
    → map_get key (receive s i now o).1.executions ≡ some x
receive-kept s i now key x none found there ended = unfold receive in there
receive-kept s i now key x (some e) found there ended = elim (Bool-cases (is_terminal e.status)) [
  | inl over ↦ unfold receive in ground arith
  | inr live ↦
      let kept =
        change_found-keeps (has_provider_id i.provider_refund_id) (closing i.outcome now) key
          s.executions e x found live ended there in
      unfold receive in ground arith
]

-- No event of the provider changes an execution that has succeeded or failed.
pub terminal_kept :
    (s : Ledger) (i : ProviderEventInput) (now : ℕ) (key : String) (x : Execution)
    → map_get key s.executions ≡ some x
    → is_terminal x.status ≡ true
    → map_get key (record_provider_refund_event s i now).1.executions ≡ some x
unfolding record_provider_refund_event
terminal_kept s i now key x there ended =
    let kept =
      receive-kept s i now key x (find_value (has_provider_id i.provider_refund_id) s.executions)
        refl there ended in
    ground arith

unknown_is :
    (s : Ledger) (i : ProviderEventInput) (now : ℕ)
    → map_get i.event_id s.provider_events ≡ none
    → record_provider_refund_event s i now
      ≡ receive s i now (find_value (has_provider_id i.provider_refund_id) s.executions)
unfolding record_provider_refund_event
unknown_is s i now h = ground arith

known_is :
    (s : Ledger) (i : ProviderEventInput) (now : ℕ) (e : PendingEvent)
    → map_get i.event_id s.provider_events ≡ some e
    → record_provider_refund_event s i now ≡ (Receipt.duplicate, s)
unfolding record_provider_refund_event
known_is s i now e h = ground arith

receive-posts :
    (s s' : Ledger) (i : ProviderEventInput) (now : ℕ) (o : Option Execution)
    → receive s i now o ≡ (Receipt.accepted, s')
    → ¬ (s' ≡ s)
    → (posted : PendingEvent) × (map_get i.event_id s'.provider_events ≡ some posted)
unfolding receive
receive-posts s s' i now none h changed = absurd (cc h)
receive-posts s s' i now (some e) h changed =
    let posted = get-set-same i.event_id (pending_event i e) s.provider_events in
    elim (Bool-cases (is_terminal e.status)) [
      | inl over ↦ let same : s' ≡ s = ground arith in absurd (changed same)
      | inr live ↦ (pending_event i e, ground arith)
    ]

event-posts :
    (s s' : Ledger) (i : ProviderEventInput) (now : ℕ)
    → record_provider_refund_event s i now ≡ (Receipt.accepted, s')
    → ¬ (s' ≡ s)
    → (posted : PendingEvent) × (map_get i.event_id s'.provider_events ≡ some posted)
event-posts s s' i now h changed = elim (Option-cases (map_get i.event_id s.provider_events)) [
  | inr (e, known) ↦ let is = known_is s i now e known in absurd (cc (is, h))
  | inl unknown ↦
      receive-posts s s' i now (find_value (has_provider_id i.provider_refund_id) s.executions)
        (sym (unknown_is s i now unknown) ∙ h) changed
]

-- An event is taken once: when the delivery of a provider event has been accepted and has changed the
-- ledger, then behind any further reservations, outcomes, events of the provider and marks of the
-- delivery of other events, an event with its id is answered as a duplicate and changes nothing.
pub event_twice :
    (s s' : Ledger) (i again : ProviderEventInput) (now later : ℕ) (os : List Operation)
    → record_provider_refund_event s i now ≡ (Receipt.accepted, s')
    → ¬ (s' ≡ s)
    → All (IsOther i.event_id) os
    → again.event_id ≡ i.event_id
    → record_provider_refund_event (run_operations os s') again later
      ≡ (Receipt.duplicate, run_operations os s')
event_twice s s' i again now later os h changed others same =
    let (posted, left) = event-posts s s' i now h changed in
    known_is (run_operations os s') again later posted (
      ap (λ id. map_get id (run_operations os s').provider_events) same
      ∙ run_operations-pending os s' i.event_id posted others left)
