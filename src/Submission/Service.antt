-- ===== src/Submission/Service.antt =====
-- The requests of apps/services/integration-gateway/src/refund-execution-routes.ts that run at the same
-- time over one in-memory repository, whose other callers run between their awaits.
use customer_service_os_lite.Common.{ℕ, zero, suc, Option, none, some, List, [], ◌∷◌, ◌++◌, String}
use customer_service_os_lite.Gateway.Types.{CommerceOrder}
use customer_service_os_lite.Gateway.Context.{TextPlatform}
use customer_service_os_lite.Executions.{Ledger, reservation_key}
use customer_service_os_lite.Executions.Runs.{Operation, after_operation}
use customer_service_os_lite.Submission.{
  SubmissionRequest, WorkflowAccess, ProviderResult, RefundCall, Progress, check_and_reserve,
  after_reservation, after_call, after_recording, after_unknown,
}

-- A call of the provider, with the reservation key of the request that makes it.
pub record KeyedCall : Type 0 where
  pub key : String
  pub call : RefundCall

-- What a request is resumed with: what its await gives, a random id, and the clock's reading.
pub record Resumption : Type 0 where
  pub order : Option CommerceOrder
  pub random_id : String
  pub result : Option ProviderResult
  pub now : ℕ

pub record Resumed : Type 0 where
  pub progress : Progress
  pub ledger : Ledger
  pub calls : List KeyedCall

abbrev pub calls_of : String → Option RefundCall → List KeyedCall
calls_of key none = []
calls_of key (some call) = record { key = key; call = call } ∷ []

-- The requests that run, in the order of their arrival, the ledger, and the calls of the provider so
-- far, the latest first.
pub record Service : Type 0 where
  pub ledger : Ledger
  pub requests : List Progress
  pub calls : List KeyedCall

-- A request arrives, the request at a position is resumed, or the repository is called by others.
pub data Happening : Type 0 where
  arrival : WorkflowAccess → SubmissionRequest → Happening
  resumption : ℕ → Resumption → Happening
  operation : Operation → Happening

module _ (platform : TextPlatform) where
  -- One request, from its await to the next.
  unfoldable pub resume : Ledger → Progress → Resumption → Resumed
  unfolding check_and_reserve after_reservation after_call after_recording after_unknown
  resume s (Progress.finding_order access r) with_ =
      let (next, ledger) =
        check_and_reserve platform s access r with_.order with_.random_id with_.now in
      record { progress = next; ledger = ledger; calls = [] }
  resume s (Progress.reserving i call reservation) with_ =
      let (next, called) = after_reservation i call reservation in
      record { progress = next; ledger = s; calls = calls_of (reservation_key i) called }
  resume s (Progress.calling i id) with_ =
      let (next, ledger) = after_call s i id with_.result with_.now in
      record { progress = next; ledger = ledger; calls = [] }
  resume s (Progress.recording i id status provider done) with_ =
      let (next, ledger) = after_recording s i id status provider done with_.now in
      record { progress = next; ledger = ledger; calls = [] }
  resume s (Progress.recording_unknown i done) with_ = record {
    progress = Progress.finished (after_unknown done);
    ledger = s;
    calls = [];
  }
  resume s (Progress.finished reply) with_ = record {
    progress = Progress.finished reply;
    ledger = s;
    calls = [];
  }

  -- The request at the position is resumed; the others stand where they are.
  unfoldable pub resume_at :
      ℕ → Ledger → List Progress → Resumption → (List Progress × Ledger) × List KeyedCall
  resume_at n s [] with_ = (([], s), [])
  resume_at zero s (p ∷ ps) with_ =
      let resumed = resume s p with_ in ((resumed.progress ∷ ps, resumed.ledger), resumed.calls)
  resume_at (suc n) s (p ∷ ps) with_ =
      let ((rest, ledger), calls) = resume_at n s ps with_ in ((p ∷ rest, ledger), calls)

  unfoldable pub step : Happening → Service → Service
  unfolding resume_at
  step (Happening.arrival access r) s = record s {
    requests = s.requests ++ Progress.finding_order access r ∷ [];
  }
  step (Happening.resumption n with_) s =
      let ((requests, ledger), calls) = resume_at n s.ledger s.requests with_ in
      record { ledger = ledger; requests = requests; calls = calls ++ s.calls }
  step (Happening.operation o) s = record s { ledger = after_operation o s.ledger }

  unfoldable pub run_service : List Happening → Service → Service
  unfolding step
  run_service [] s = s
  run_service (h ∷ hs) s = run_service hs (step h s)
