-- ===== src/Executions/Queries.antt =====
-- The queries of `InMemoryRefundExecutionRepository` in
-- apps/services/integration-gateway/src/refund-execution-repository.ts.
pub mod Laws
use customer_service_os_lite.Common.{
  ℕ, ◌+◌, ◌-◌, Bool, true, false, ◌&&◌, Option, none, some, List, [], ◌∷◌, map, String, str_eq, leb,
  if◌then◌else◌,
}
use customer_service_os_lite.Common.Int.{ℤ, leb_ℤ}
use customer_service_os_lite.Common.Dates.{Timestamp, date_parse}
use customer_service_os_lite.Common.Lists.{length, take}
use customer_service_os_lite.Common.Sort.{sort_by}
use customer_service_os_lite.Executions.{
  ExecutionStatus, RefundExecution, PendingEvent, Execution, Ledger, public_view, find_value,
  same_status,
}

-- `value ? this.public(value) : undefined`
abbrev pub public_of : Option Execution → Option RefundExecution
public_of none = none
public_of (some e) = some (public_view e)

pub is_at : String → String → Execution → Bool
is_at tenant environment e = str_eq e.tenant_id tenant && str_eq e.environment_id environment

pub is_success_of : String → ℤ → String → Execution → Bool
unfolding same_status
is_success_of order_id amount_minor currency e =
    str_eq e.order_id order_id
    && (leb_ℤ e.amount_minor amount_minor
        && leb_ℤ amount_minor e.amount_minor
        && (str_eq e.currency currency && same_status e.status ExecutionStatus.succeeded))

pub is_of_preview : String → String → Execution → Bool
is_of_preview workflow_id preview_id e =
    str_eq e.workflow_id workflow_id && str_eq e.preview_id preview_id

unfoldable pub find_succeeded :
    Ledger → String → String → String → ℤ → String → Option RefundExecution
unfolding is_at is_success_of find_value
find_succeeded s tenant environment order_id amount_minor currency = public_of (
    find_value (λ e. is_at tenant environment e && is_success_of order_id amount_minor currency e)
      s.executions)

unfoldable pub find_by_workflow_and_preview :
    Ledger → String → String → String → String → Option RefundExecution
unfolding is_at is_of_preview find_value
find_by_workflow_and_preview s tenant environment workflow_id preview_id = public_of (
    find_value (λ e. is_at tenant environment e && is_of_preview workflow_id preview_id e)
      s.executions)

-- `locale_le l r` is `l.localeCompare(r) <= 0` on the texts of instants.
unfoldable pub list_pending_provider_refund_events :
    (Timestamp → Timestamp → Bool) → Ledger → ℕ → List PendingEvent
list_pending_provider_refund_events locale_le s limit = take limit (
    sort_by (λ (left right : PendingEvent). locale_le left.occurred_at right.occurred_at)
      (map (λ entry. entry.1) s.provider_events))

pub record ExecutionCounts : Type 0 where
  pub in_progress : ℕ
  pub submitted : ℕ
  pub succeeded : ℕ
  pub failed : ℕ
  pub pending_reconciliation : ℕ

-- `executionCounts[status] += 1`
abbrev pub count_one : ExecutionStatus → ExecutionCounts → ExecutionCounts
count_one ExecutionStatus.in_progress c = record c { in_progress = c.in_progress + 1 }
count_one ExecutionStatus.submitted c = record c { submitted = c.submitted + 1 }
count_one ExecutionStatus.succeeded c = record c { succeeded = c.succeeded + 1 }
count_one ExecutionStatus.failed c = record c { failed = c.failed + 1 }
count_one ExecutionStatus.pending_reconciliation c = record c {
  pending_reconciliation = c.pending_reconciliation + 1;
}

-- The counts of `getRefundOperationsSnapshot`.
abbrev pub count_all : ExecutionCounts → List (String × Execution) → ExecutionCounts
count_all c [] = c
count_all c ((key, e) ∷ m) = count_all (count_one e.status c) m

-- The greatest age of the executions at a status, in thousandths of a second: `oldest` is what the
-- snapshot holds so far. An invalid date makes it NaN, which is `some none`.
abbrev pub age : ℕ → Option ℕ → Option ℕ
age now none = none
age now (some entered) = some (now - entered)

abbrev pub greater : Option ℕ → Option ℕ → Option ℕ
greater none b = none
greater (some a) none = none
greater (some a) (some b) = some (if leb a b then b else a)

abbrev pub oldest_at :
    ExecutionStatus → ℕ → Option (Option ℕ) → List (String × Execution) → Option (Option ℕ)
oldest_at status now oldest [] = oldest
oldest_at status now oldest ((key, e) ∷ m) =
    let so_far : Option ℕ = elim oldest [ none ↦ some 0 | some a ↦ a ] in
    let seen = oldest_at status now (some (greater so_far (age now e.status_entered_at))) m in
    let unseen = oldest_at status now oldest m in
    if same_status e.status status then seen else unseen

abbrev pub oldest_event : ℕ → List (String × PendingEvent) → Option ℕ
oldest_event now [] = some 0
oldest_event now ((key, e) ∷ m) = greater (age now (date_parse e.occurred_at)) (oldest_event now m)

pub record OperationsSnapshot : Type 0 where
  pub execution_counts : ExecutionCounts
  pub oldest_in_progress : Option (Option ℕ)
  pub oldest_submitted : Option (Option ℕ)
  pub oldest_pending_reconciliation : Option (Option ℕ)
  pub pending_provider_event_count : ℕ
  pub oldest_pending_provider_event : Option ℕ

abbrev pub no_counts : ExecutionCounts
no_counts = record {
  in_progress = 0;
  submitted = 0;
  succeeded = 0;
  failed = 0;
  pending_reconciliation = 0;
}

unfoldable pub get_refund_operations_snapshot : Ledger → ℕ → OperationsSnapshot
get_refund_operations_snapshot s now = record {
  execution_counts = count_all no_counts s.executions;
  oldest_in_progress = oldest_at ExecutionStatus.in_progress now none s.executions;
  oldest_submitted = oldest_at ExecutionStatus.submitted now none s.executions;
  oldest_pending_reconciliation =
      oldest_at ExecutionStatus.pending_reconciliation now none s.executions;
  pending_provider_event_count = length s.provider_events;
  oldest_pending_provider_event = oldest_event now s.provider_events;
}
