-- ===== src/Tests/Executions.antt =====
-- Tests of the in-memory repository of
-- apps/services/integration-gateway/src/refund-execution-repository.ts.
use customer_service_os_lite.Common.{
  ap, arith, str_eq, str_eq_iff, false, String, List, ◌≢◌, ◌≡◌, refl, none, some, [], ◌∷◌, true,
}
use customer_service_os_lite.Common.Int.{pos}
use customer_service_os_lite.Common.Lists.{length}
use customer_service_os_lite.Common.Maps.{map_get, map_set}
use customer_service_os_lite.Common.Dates.{at}
use customer_service_os_lite.Executions.{
  ExecutionStatus, ReserveInput, RefundOutcome, ProviderEventInput, Execution, Ledger, Reservation,
  Receipt, RefundExecution, record_outcome, public_view, same_status, new_execution, reserve,
  is_terminal, record_provider_refund_event,
}
use customer_service_os_lite.Executions.Queries.{
  find_succeeded, find_by_workflow_and_preview, get_refund_operations_snapshot,
}
use customer_service_os_lite.Executions.Queries.Laws.{
  counted, occurrences, snapshot_counts, find-reserve,
}
use customer_service_os_lite.Executions.Runs.{Operation, run_operations}
use customer_service_os_lite.Executions.Laws.{reserve_twice, terminal_kept, event_twice}

abbrev empty : Ledger
empty = record { executions = []; provider_events = [] }

abbrev reservation : ReserveInput
reservation = record {
  tenant_id = "t";
  environment_id = "e";
  idempotency_key = "k";
  workflow_id = "w";
  preview_id = "v-1";
  order_id = "o-1";
  amount_minor = pos 2500;
  currency = "EUR";
  occurred_at = at 100;
}

abbrev running : Execution
running = new_execution reservation "t:e:k" "x-1"

abbrev with_running : Ledger
with_running = record empty { executions = ("t:e:k", running) ∷ [] }

abbrev finished : Execution
finished = record running { status = ExecutionStatus.succeeded; provider_refund_id = some "r-9" }

abbrev with_finished : Ledger
with_finished = record empty { executions = ("t:e:k", finished) ∷ [] }

abbrev failure : ProviderEventInput
failure = record {
  event_id = "ev-1";
  provider_refund_id = "r-9";
  outcome = RefundOutcome.failed;
  occurred_at = at 200;
}

reserved : reserve empty reservation "x-1" ≡ (Reservation.reserved "x-1", with_running)
unfolding reserve map_get map_set
reserved = refl

found : map_get "t:e:k" with_finished.executions ≡ some finished
unfolding map_get
found = refl

over : is_terminal ExecutionStatus.succeeded ≡ true
unfolding is_terminal
over = refl

-- An event for a refund that has ended is accepted as often as it comes.
accepted_again : (record_provider_refund_event with_finished failure 5).0 ≡ Receipt.accepted
unfolding record_provider_refund_event map_get
accepted_again = refl

-- The reserved execution is submitted, and the provider completes it.
abbrev paying : List Operation
paying =
    Operation.outcome "x-1" ExecutionStatus.submitted (some "r-9") 150
    ∷ Operation.provider_event (record failure { outcome = RefundOutcome.completed }) 200
    ∷ []

reserve_twice_example :
    (e : RefundExecution) × (reserve (run_operations paying with_running) reservation "x-2"
      ≡ (Reservation.existing e, run_operations paying with_running))
    × (e.execution_id ≡ "x-1")
reserve_twice_example =
    reserve_twice empty with_running reservation reservation "x-1" "x-2" "x-1" paying reserved refl

terminal_kept_example :
    map_get "t:e:k" (record_provider_refund_event with_finished failure 5).1.executions
    ≡ some finished
terminal_kept_example = terminal_kept with_finished failure 5 "t:e:k" finished found over

abbrev with_submitted : Ledger
with_submitted =
    run_operations (Operation.outcome "x-1" ExecutionStatus.submitted (some "r-9") 150 ∷ [])
      with_running

abbrev delivery : Receipt × Ledger
delivery = record_provider_refund_event with_submitted failure 5

accepted : delivery ≡ (Receipt.accepted, delivery.1)
unfolding record_provider_refund_event record_outcome map_get map_set
accepted = refl

grown : length delivery.1.provider_events ≡ 1
unfolding record_provider_refund_event record_outcome map_get map_set
grown = refl

unposted : length with_submitted.provider_events ≡ 0
unfolding record_outcome
unposted = refl

changes : ¬ (delivery.1 ≡ with_submitted)
changes same =
    let as_many = ap (λ (s : Ledger). length s.provider_events) same in
    let one = grown in let zero_before = unposted in absurd (omega arith)

another : ◌≢◌ {A = String} "ev-1" "ev-2"
another e =
    let same = (str_eq_iff "ev-1" "ev-2").1 e in
    let differ : str_eq "ev-1" "ev-2" ≡ false = refl in absurd (cc (same, differ))

event_twice_example :
    (let s = run_operations (Operation.delivered "ev-2" ∷ []) delivery.1 in
      record_provider_refund_event s failure 9 ≡ (Receipt.duplicate, s))
event_twice_example =
    event_twice with_submitted delivery.1 failure failure 5 9 (Operation.delivered "ev-2" ∷ [])
      accepted changes (another, tt) refl

snapshot_counts_example :
    counted ExecutionStatus.in_progress
      (get_refund_operations_snapshot with_running 500).execution_counts
    ≡ occurrences ExecutionStatus.in_progress with_running.executions
snapshot_counts_example = snapshot_counts with_running 500 ExecutionStatus.in_progress

oldest : (get_refund_operations_snapshot with_running 500).oldest_in_progress ≡ some (some 400)
unfolding get_refund_operations_snapshot same_status
oldest = refl

find-reserve_example :
    find_by_workflow_and_preview with_running "t" "e" "w" "v-1"
    ≡ some (record {
      execution_id = "x-1";
      status = ExecutionStatus.in_progress;
      provider_refund_id = none;
    })
find-reserve_example = find-reserve empty with_running reservation "x-1" "x-1" tt reserved

paid : find_succeeded with_finished "t" "e" "o-1" (pos 2500) "EUR" ≡ some (public_view finished)
unfolding find_succeeded same_status
paid = refl
