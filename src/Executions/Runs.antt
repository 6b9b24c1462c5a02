-- ===== src/Executions/Runs.antt =====
-- Sequences of operations on the in-memory repository of
-- apps/services/integration-gateway/src/refund-execution-repository.ts: what is known under a key stays
-- known with its id, and a pending event stays pending until it is marked delivered.
use customer_service_os_lite.Common.{
  ℕ, Bool, ◌≡◌, ◌≢◌, refl, ap, ◌∙◌, inl, inr, Bool-cases, Option-cases, Option, none, some, List,
  [], ◌∷◌, String, str_eq, arith, Result, ok, err,
}
use customer_service_os_lite.Common.Lists.{All}
use customer_service_os_lite.Common.Maps.{map_get, map_set, get-set-other, get-delete-other}
use customer_service_os_lite.Executions.{
  ExecutionStatus, ReserveInput, ProviderEventInput, Execution, Ledger, PendingEvent, LedgerError,
  reservation_key, new_execution, reserve, find_value, change_found, is_execution, with_outcome,
  record_outcome, has_provider_id, closing, is_terminal, pending_event, receive,
  record_provider_refund_event, mark_provider_refund_event_delivered,
}

-- A call of an operation, with the random id or the clock's reading that it takes.
pub data Operation : Type 0 where
  reservation : ReserveInput → String → Operation
  outcome : String → ExecutionStatus → Option String → ℕ → Operation
  provider_event : ProviderEventInput → ℕ → Operation
  delivered : String → Operation

abbrev pub ledger_or : {A : Type 0} → Ledger → Result LedgerError (A × Ledger) → Ledger
ledger_or s (ok (answer, t)) = t
ledger_or s (err e) = s

abbrev pub after_operation : Operation → Ledger → Ledger
after_operation (Operation.reservation i random_id) s = (reserve s i random_id).1
after_operation (Operation.outcome id status provider now) s =
    ledger_or s (record_outcome s id status provider now)
after_operation (Operation.provider_event i now) s = (record_provider_refund_event s i now).1
after_operation (Operation.delivered event_id) s = mark_provider_refund_event_delivered s event_id

abbrev pub run_operations : List Operation → Ledger → Ledger
run_operations [] s = s
run_operations (o ∷ os) s = run_operations os (after_operation o s)

-- An execution with the id is stored under the key.
pub record IsKnown (s : Ledger) (key id : String) : Type 0 where
  pub execution : Execution
  pub stored : map_get key s.executions ≡ some execution
  pub named : execution.execution_id ≡ id

change_found-known :
    (test : Execution → Bool) (change : Execution → Execution) (key : String)
    (m : List (String × Execution)) (e : Execution)
    → ((x : Execution) → (change x).execution_id ≡ x.execution_id)
    → map_get key m ≡ some e
    → (x : Execution) × (map_get key (change_found test change m) ≡ some x)
      × (x.execution_id ≡ e.execution_id)
unfolding change_found map_get
change_found-known test change key [] e keeps h = absurd (ground arith)
change_found-known test change key ((k, v) ∷ m) e keeps h = elim (Bool-cases (test v)) [
  | inl taken ↦ elim (Bool-cases (str_eq k key)) [
    | inl same ↦
        let is : v ≡ e = ground arith in
        (change v, ground arith, keeps v ∙ ap (λ (x : Execution). x.execution_id) is)
    | inr other ↦ (e, ground arith, refl)
  ]
  | inr left ↦ elim (Bool-cases (str_eq k key)) [
    | inl same ↦
        let is : v ≡ e = ground arith in
        (v, ground arith, ap (λ (x : Execution). x.execution_id) is)
    | inr other ↦
        let (x, rest, named) = change_found-known test change key m e keeps (ground arith) in
        (x, ground arith, named)
  ]
]

with_outcome-id :
    (status : ExecutionStatus) (provider : Option String) (now : ℕ) (x : Execution)
    → (with_outcome status provider now x).execution_id ≡ x.execution_id
unfolding with_outcome
with_outcome-id status provider now x = ground arith

changed-IsKnown :
    (s : Ledger) (test : Execution → Bool) (change : Execution → Execution) (key id : String)
    → ((x : Execution) → (change x).execution_id ≡ x.execution_id)
    → IsKnown s key id
    → (es : List (String × PendingEvent))
    → IsKnown
        (record { executions = change_found test change s.executions; provider_events = es })
        key
        id
changed-IsKnown s test change key id keeps known es =
    let (x, stored, named) =
      change_found-known test change key s.executions known.execution keeps known.stored in
    record { execution = x; stored = stored; named = named ∙ known.named }

reserve-IsKnown :
    (s : Ledger) (i : ReserveInput) (random_id key id : String)
    → IsKnown s key id
    → IsKnown (reserve s i random_id).1 key id
unfolding reserve
reserve-IsKnown s i random_id key id known =
    elim (Option-cases (map_get (reservation_key i) s.executions)) [
      | inl fresh ↦
          let apart : key ≢ reservation_key i =
            λ e. absurd (let there = known.stored in cc (e, fresh, there)) in
          let kept =
            get-set-other (reservation_key i) key (new_execution i (reservation_key i) random_id)
              s.executions apart in
          record {
            execution = known.execution;
            stored = (let there = known.stored in ground arith);
            named = known.named;
          }
      | inr (e, found) ↦ record {
        execution = known.execution;
        stored = (let there = known.stored in ground arith);
        named = known.named;
      }
    ]

outcome-IsKnown :
    (s : Ledger) (execution_id : String) (status : ExecutionStatus) (provider : Option String)
    (now : ℕ) (key id : String)
    → IsKnown s key id
    → IsKnown (ledger_or s (record_outcome s execution_id status provider now)) key id
unfolding record_outcome
outcome-IsKnown s execution_id status provider now key id known =
    let changed =
      changed-IsKnown s (is_execution execution_id) (with_outcome status provider now) key id
        (with_outcome-id status provider now) known s.provider_events in
    elim (Option-cases (find_value (is_execution execution_id) s.executions)) [
      | inl absent ↦ rw (ledger_or, record_outcome, absent) known
      | inr (e, found) ↦ rw (ledger_or, record_outcome, found) changed
    ]

receive-IsKnown :
    (s : Ledger) (i : ProviderEventInput) (now : ℕ) (o : Option Execution) (key id : String)
    → IsKnown s key id
    → IsKnown (receive s i now o).1 key id
unfolding receive closing
receive-IsKnown s i now none key id known = known
receive-IsKnown s i now (some e) key id known =
    let changed =
      changed-IsKnown s (has_provider_id i.provider_refund_id) (closing i.outcome now) key id
        (λ x. refl) known (map_set i.event_id (pending_event i e) s.provider_events) in
    elim (Bool-cases (is_terminal e.status)) [ inl h ↦ rw h known | inr h ↦ rw h changed ]

event-IsKnown :
    (s : Ledger) (i : ProviderEventInput) (now : ℕ) (key id : String)
    → IsKnown s key id
    → IsKnown (record_provider_refund_event s i now).1 key id
unfolding record_provider_refund_event
event-IsKnown s i now key id known =
    let received =
      receive-IsKnown s i now (find_value (has_provider_id i.provider_refund_id) s.executions) key
        id known in
    elim (Option-cases (map_get i.event_id s.provider_events)) [
      | inl fresh ↦ rw (record_provider_refund_event, fresh) received
      | inr (e, posted) ↦ rw (record_provider_refund_event, posted) known
    ]

pub after_operation-IsKnown :
    (o : Operation) (s : Ledger) (key id : String)
    → IsKnown s key id
    → IsKnown (after_operation o s) key id
unfolding mark_provider_refund_event_delivered
after_operation-IsKnown (Operation.reservation i random_id) s key id known =
    reserve-IsKnown s i random_id key id known
after_operation-IsKnown (Operation.outcome e status provider now) s key id known =
    outcome-IsKnown s e status provider now key id known
after_operation-IsKnown (Operation.provider_event i now) s key id known =
    event-IsKnown s i now key id known
after_operation-IsKnown (Operation.delivered event_id) s key id known = record {
  execution = known.execution;
  stored = known.stored;
  named = known.named;
}

pub run_operations-IsKnown :
    (os : List Operation) (s : Ledger) (key id : String)
    → IsKnown s key id
    → IsKnown (run_operations os s) key id
run_operations-IsKnown [] s key id known = known
run_operations-IsKnown (o ∷ os) s key id known =
    run_operations-IsKnown os (after_operation o s) key id
      (after_operation-IsKnown o s key id known)

-- The operation does not mark the event as delivered.
abbrev pub IsOther : String → Operation → Type 0
IsOther event_id (Operation.delivered other) = event_id ≢ other
IsOther event_id _ = Unit

receive-pending :
    (s : Ledger) (i : ProviderEventInput) (now : ℕ) (o : Option Execution) (event_id : String)
    → event_id ≢ i.event_id
    → map_get event_id (receive s i now o).1.provider_events ≡ map_get event_id s.provider_events
unfolding receive
receive-pending s i now none event_id apart = refl
receive-pending s i now (some e) event_id apart =
    let kept = get-set-other i.event_id event_id (pending_event i e) s.provider_events apart in
    elim (Bool-cases (is_terminal e.status)) [ inl h ↦ rw h refl | inr h ↦ rw h kept ]

event-pending :
    (s : Ledger) (i : ProviderEventInput) (now : ℕ) (event_id : String) (e : PendingEvent)
    → map_get event_id s.provider_events ≡ some e
    → map_get event_id (record_provider_refund_event s i now).1.provider_events ≡ some e
unfolding record_provider_refund_event
event-pending s i now event_id e h = elim (Option-cases (map_get i.event_id s.provider_events)) [
  | inr (x, known) ↦ ground arith
  | inl fresh ↦
      let apart : event_id ≢ i.event_id = λ same. absurd (cc (same, fresh, h)) in
      let kept =
        receive-pending s i now (find_value (has_provider_id i.provider_refund_id) s.executions)
          event_id apart in
      ground arith
]

reserve-pending :
    (s : Ledger) (i : ReserveInput) (random_id : String)
    → (reserve s i random_id).1.provider_events ≡ s.provider_events
unfolding reserve
reserve-pending s i random_id = ground arith

outcome-pending :
    (s : Ledger) (execution_id : String) (status : ExecutionStatus) (provider : Option String)
    (now : ℕ)
    → (ledger_or s (record_outcome s execution_id status provider now)).provider_events
      ≡ s.provider_events
unfolding record_outcome
outcome-pending s execution_id status provider now =
    elim (Option-cases (find_value (is_execution execution_id) s.executions)) [
      | inl absent ↦ rw (ledger_or, record_outcome, absent) refl
      | inr (e, found) ↦ rw (ledger_or, record_outcome, found) refl
    ]

after_operation-pending :
    (o : Operation) (s : Ledger) (event_id : String) (e : PendingEvent)
    → IsOther event_id o
    → map_get event_id s.provider_events ≡ some e
    → map_get event_id (after_operation o s).provider_events ≡ some e
unfolding mark_provider_refund_event_delivered
after_operation-pending (Operation.reservation i random_id) s event_id e other h =
    rw (reserve-pending s i random_id) h
after_operation-pending (Operation.outcome x status provider now) s event_id e other h =
    rw (outcome-pending s x status provider now) h
after_operation-pending (Operation.provider_event i now) s event_id e other h =
    event-pending s i now event_id e h
after_operation-pending (Operation.delivered marked) s event_id e other h =
    get-delete-other marked event_id s.provider_events other ∙ h

pub run_operations-pending :
    (os : List Operation) (s : Ledger) (event_id : String) (e : PendingEvent)
    → All (IsOther event_id) os
    → map_get event_id s.provider_events ≡ some e
    → map_get event_id (run_operations os s).provider_events ≡ some e
run_operations-pending [] s event_id e others h = h
run_operations-pending (o ∷ os) s event_id e (other, others) h =
    run_operations-pending os (after_operation o s) event_id e others
      (after_operation-pending o s event_id e other h)
