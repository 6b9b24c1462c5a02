-- ===== src/Executions.antt =====
-- `InMemoryRefundExecutionRepository` of
-- apps/services/integration-gateway/src/refund-execution-repository.ts. The clock's reading and the
-- random id are arguments of the operations that take them.
pub mod Laws
pub mod Queries
pub mod Runs
use customer_service_os_lite.Common.{
  ℕ, Bool, true, false, ◌&&◌, ◌||◌, Option, none, some, List, [], ◌∷◌, String, str_eq, template,
  if◌then◌else◌, Result, ok, err,
}
use customer_service_os_lite.Common.Int.{ℤ, leb_ℤ}
use customer_service_os_lite.Common.Maps.{map_get, map_set, map_delete}
use customer_service_os_lite.Common.Dates.{Timestamp, date_parse}

pub data ExecutionStatus : Type 0 where
  in_progress submitted succeeded failed pending_reconciliation : ExecutionStatus

pub record RefundExecution : Type 0 where
  pub execution_id : String
  pub status : ExecutionStatus
  pub provider_refund_id : Option String

pub record ReserveInput : Type 0 where
  pub tenant_id : String
  pub environment_id : String
  pub idempotency_key : String
  pub workflow_id : String
  pub preview_id : String
  pub order_id : String
  pub amount_minor : ℤ
  pub currency : String
  pub occurred_at : Timestamp

pub data RefundOutcome : Type 0 where
  completed failed : RefundOutcome

pub record ProviderEventInput : Type 0 where
  pub event_id : String
  pub provider_refund_id : String
  pub outcome : RefundOutcome
  pub occurred_at : Timestamp

pub record PendingEvent : Type 0 where
  pub event_id : String
  pub workflow_id : String
  pub provider_refund_id : String
  pub outcome : RefundOutcome
  pub occurred_at : Timestamp

-- The values of the map; `none` is an invalid date.
pub record Execution : Type 0 where
  pub execution_id : String
  pub status : ExecutionStatus
  pub status_entered_at : Option ℕ
  pub provider_refund_id : Option String
  pub key : String
  pub workflow_id : String
  pub preview_id : String
  pub tenant_id : String
  pub environment_id : String
  pub order_id : String
  pub amount_minor : ℤ
  pub currency : String

pub record Ledger : Type 0 where
  pub executions : List (String × Execution)
  pub provider_events : List (String × PendingEvent)

pub data Reservation : Type 0 where
  reserved : String → Reservation
  existing : RefundExecution → Reservation

pub data Receipt : Type 0 where
  accepted duplicate unknown_refund : Receipt

pub data LedgerError : Type 0 where
  refund_execution_not_found : LedgerError

-- `public(value)`
abbrev pub public_view : Execution → RefundExecution
public_view e = record {
  execution_id = e.execution_id;
  status = e.status;
  provider_refund_id = e.provider_refund_id;
}

unfoldable pub reservation_key : ReserveInput → String
reservation_key i = template (i.tenant_id ∷ ":" ∷ i.environment_id ∷ ":" ∷ i.idempotency_key ∷ [])

abbrev pub new_execution : ReserveInput → String → String → Execution
new_execution i key id = record {
  execution_id = id;
  status = ExecutionStatus.in_progress;
  status_entered_at = date_parse i.occurred_at;
  provider_refund_id = none;
  key = key;
  workflow_id = i.workflow_id;
  preview_id = i.preview_id;
  tenant_id = i.tenant_id;
  environment_id = i.environment_id;
  order_id = i.order_id;
  amount_minor = i.amount_minor;
  currency = i.currency;
}

unfoldable pub reserve : Ledger → ReserveInput → String → Reservation × Ledger
unfolding reservation_key
reserve s i random_id =
    let key = reservation_key i in
    elim (map_get key s.executions) [
      | some e ↦ (Reservation.existing (public_view e), s)
      | none ↦ (
        Reservation.reserved random_id,
        record s { executions = map_set key (new_execution i key random_id) s.executions },
      )
    ]

-- `[...map.values()].find(test)`
unfoldable pub find_value : (Execution → Bool) → List (String × Execution) → Option Execution
find_value test [] = none
find_value test ((k, e) ∷ m) = if test e then some e else find_value test m

-- The object that `find` gives is changed in place.
pub change_found :
    (Execution → Bool)
    → (Execution → Execution)
    → List (String × Execution)
    → List (String × Execution)
change_found test change [] = []
change_found test change ((k, e) ∷ m) =
    let rest = change_found test change m in if test e then (k, change e) ∷ m else (k, e) ∷ rest

unfoldable pub same_status : ExecutionStatus → ExecutionStatus → Bool
same_status ExecutionStatus.in_progress ExecutionStatus.in_progress = true
same_status ExecutionStatus.submitted ExecutionStatus.submitted = true
same_status ExecutionStatus.succeeded ExecutionStatus.succeeded = true
same_status ExecutionStatus.failed ExecutionStatus.failed = true
same_status ExecutionStatus.pending_reconciliation ExecutionStatus.pending_reconciliation = true
same_status _ _ = false

pub is_execution : String → Execution → Bool
is_execution id e = str_eq e.execution_id id

pub with_outcome : ExecutionStatus → Option String → ℕ → Execution → Execution
unfolding same_status
with_outcome status provider now e =
    let entered : Execution =
      if same_status e.status status
      then e
      else record e { status = status; status_entered_at = some now } in
    elim provider [ none ↦ entered | some id ↦ record entered { provider_refund_id = some id } ]

unfoldable pub record_outcome :
    Ledger
    → String
    → ExecutionStatus
    → Option String
    → ℕ
    → Result LedgerError (RefundExecution × Ledger)
unfolding find_value change_found is_execution with_outcome
record_outcome s id status provider now = elim (find_value (is_execution id) s.executions) [
  | none ↦ err LedgerError.refund_execution_not_found
  | some e ↦ ok (
    public_view (with_outcome status provider now e),
    record s {
      executions = change_found (is_execution id) (with_outcome status provider now) s.executions;
    },
  )
]

unfoldable pub is_terminal : ExecutionStatus → Bool
is_terminal ExecutionStatus.succeeded = true
is_terminal ExecutionStatus.failed = true
is_terminal _ = false

-- `item.providerRefundId === id`
pub has_provider_id : String → Execution → Bool
has_provider_id id e = elim e.provider_refund_id [ none ↦ false | some p ↦ str_eq p id ]

pub terminal_status : RefundOutcome → ExecutionStatus
terminal_status RefundOutcome.completed = ExecutionStatus.succeeded
terminal_status RefundOutcome.failed = ExecutionStatus.failed

pub closing : RefundOutcome → ℕ → Execution → Execution
unfolding terminal_status
closing outcome now e = record e { status = terminal_status outcome; status_entered_at = some now }

abbrev pub pending_event : ProviderEventInput → Execution → PendingEvent
pending_event i e = record {
  event_id = i.event_id;
  workflow_id = e.workflow_id;
  provider_refund_id = i.provider_refund_id;
  outcome = i.outcome;
  occurred_at = i.occurred_at;
}

-- Behind the test for a duplicate, at the execution that was found.
pub receive : Ledger → ProviderEventInput → ℕ → Option Execution → Receipt × Ledger
unfolding change_found has_provider_id closing is_terminal
receive s i now none = (Receipt.unknown_refund, s)
receive s i now (some e) = if is_terminal e.status then (Receipt.accepted, s) else (
  Receipt.accepted,
  record s {
    executions =
        change_found (has_provider_id i.provider_refund_id) (closing i.outcome now) s.executions;
    provider_events = map_set i.event_id (pending_event i e) s.provider_events;
  },
)

unfoldable pub record_provider_refund_event : Ledger → ProviderEventInput → ℕ → Receipt × Ledger
unfolding receive find_value has_provider_id
record_provider_refund_event s i now = elim (map_get i.event_id s.provider_events) [
  | some known ↦ (Receipt.duplicate, s)
  | none ↦ receive s i now (find_value (has_provider_id i.provider_refund_id) s.executions)
]

pub mark_provider_refund_event_delivered : Ledger → String → Ledger
mark_provider_refund_event_delivered s event_id = record s {
  provider_events = map_delete event_id s.provider_events;
}
