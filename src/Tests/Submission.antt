-- ===== src/Tests/Submission.antt =====
-- Tests of apps/services/integration-gateway/src/refund-execution-routes.ts.
use customer_service_os_lite.Common.{
  ℕ, ◌+◌, ◌≤◌, String, List, ◌≡◌, refl, arith, none, some, [], ◌∷◌,
}
use customer_service_os_lite.Common.Int.{pos, ◌+ℤ◌, ◌-ℤ◌}
use customer_service_os_lite.Common.Lists.{keep}
use customer_service_os_lite.Common.Maps.{map_get, map_set}
use customer_service_os_lite.Gateway.Types.{Payment}
use customer_service_os_lite.Gateway.Context.{is_settled, to_refund_context}
use customer_service_os_lite.Gateway.Context.Laws.{Covers}
use customer_service_os_lite.Executions.{
  ExecutionStatus, Ledger, reserve, reservation_key, record_outcome,
}
use customer_service_os_lite.Submission.{
  SubmissionRequest, WorkflowAccess, ProviderStatus, ProviderResult, RefundCall, Reply, Progress,
  reserve_input, check_and_reserve, after_reservation,
}
use customer_service_os_lite.Submission.Service.{
  Resumption, Resumed, Happening, Service, resume, run_service,
}
use customer_service_os_lite.Submission.Laws.{calls_under, known, idle, submit_once, submit-Covers}
use customer_service_os_lite.Tests.Fixtures.{euros, order, selection, text_platform}

abbrev empty : Ledger
empty = record { executions = []; provider_events = [] }

abbrev request : SubmissionRequest
request = record {
  order_id = "o-1";
  reason_code = "DAMAGED";
  selection = selection;
  amount = euros (pos 2500);
  preview_id = "v-1";
  idempotency_key = "k";
}

abbrev access : WorkflowAccess
access = record {
  tenant_id = "t";
  environment_id = "e";
  context_id = "w";
  subject_customer_id = "c-1";
}

abbrev result : ProviderResult
result = record { status = ProviderStatus.submitted; provider_refund_id = some "r-9" }

abbrev given : String → ℕ → Resumption
given random_id now = record {
  order = some order;
  random_id = random_id;
  result = some result;
  now = now;
}

-- Two requests with one key find their order and reserve, one after the other, before either calls.
abbrev happenings : List Happening
happenings =
    Happening.arrival access request
    ∷ Happening.arrival access request
    ∷ Happening.resumption 0 (given "x-1" 100)
    ∷ Happening.resumption 1 (given "x-2" 110)
    ∷ Happening.resumption 1 (given "" 120)
    ∷ Happening.resumption 0 (given "" 130)
    ∷ Happening.resumption 0 (given "" 140)
    ∷ Happening.resumption 0 (given "" 150)
    ∷ []

abbrev behind : Service
behind = run_service text_platform happenings (idle empty)

abbrev refund_call : RefundCall
refund_call = record { payment_id = "pay-1"; amount = euros (pos 2500); reason = "DAMAGED" }

one_call : behind.calls ≡ record { key = "t:e:k"; call = refund_call } ∷ []
unfolding run_service resume check_and_reserve to_refund_context reserve reserve_input
    reservation_key record_outcome map_get map_set ◌+ℤ◌ ◌-ℤ◌
one_call = refl

answers :
    behind.requests
    ≡ Progress.finished (Reply.answered ExecutionStatus.submitted (some "r-9"))
      ∷ Progress.finished (Reply.answered ExecutionStatus.pending_reconciliation none)
      ∷ []
unfolding run_service resume check_and_reserve to_refund_context reserve reserve_input
    record_outcome map_get map_set ◌+ℤ◌ ◌-ℤ◌
answers = refl

submit_once_example : calls_under "t:e:k" behind.calls + known "t:e:k" empty ≤ 1
submit_once_example = submit_once text_platform happenings empty "t:e:k"

abbrev resumed : Resumed
resumed = resume text_platform empty (Progress.finding_order access request) (given "x-1" 100)

calls :
    (resume text_platform resumed.ledger resumed.progress (given "" 130)).calls
    ≡ record { key = "t:e:k"; call = refund_call } ∷ []
unfolding resume check_and_reserve to_refund_context reserve reserve_input reservation_key
    after_reservation map_get map_set ◌+ℤ◌ ◌-ℤ◌
calls = refl

submit-Covers_example :
    (p : Payment) × (keep (is_settled text_platform) order.payments ≡ p ∷ [])
    × ("pay-1" ≡ p.id)
    × (euros (pos 2500) ≡ euros (pos 2500))
    × Covers text_platform p (pos 2500)
submit-Covers_example =
    submit-Covers text_platform empty resumed.ledger access request order (given "x-1" 100)
      (given "" 130) (record { key = "t:e:k"; call = refund_call }) (omega arith) refl calls
