-- ===== src/Submission.antt =====
-- The handler of `POST /internal/v1/refunds` in
-- apps/services/integration-gateway/src/refund-execution-routes.ts, behind the parsing of the request
-- and the check of its assertion, over the in-memory repository. A request runs from one await to the
-- next; other requests and the repository's other callers run in between. The provider's answer is an
-- argument; `none` is a call that throws.
pub mod Laws
pub mod Service
use customer_service_os_lite.Common.{
  ℕ, Bool, true, false, not, ◌||◌, Option, none, some, String, str_eq, if◌then◌else◌, Result, ok,
  err,
}
use customer_service_os_lite.Common.Int.{ltb_ℤ}
use customer_service_os_lite.Common.Lists.{find}
use customer_service_os_lite.Common.Dates.{Timestamp, at}
use customer_service_os_lite.Policy.Types.{Money}
use customer_service_os_lite.Journey.Types.{Selection, RefundContext}
use customer_service_os_lite.Gateway.Types.{CommerceOrder, Payment}
use customer_service_os_lite.Gateway.Context.{TextPlatform, is_settled, to_refund_context}
use customer_service_os_lite.Executions.{
  ExecutionStatus, RefundExecution, ReserveInput, Ledger, Reservation, LedgerError, reservation_key,
  reserve, record_outcome,
}

pub record SubmissionRequest : Type 0 where
  pub order_id : String
  pub reason_code : String
  pub amount : Money
  pub selection : Selection
  pub idempotency_key : String
  pub preview_id : String

pub record WorkflowAccess : Type 0 where
  pub tenant_id : String
  pub environment_id : String
  pub context_id : String
  pub subject_customer_id : String

pub data ProviderStatus : Type 0 where
  submitted succeeded failed : ProviderStatus

pub record ProviderResult : Type 0 where
  pub status : ProviderStatus
  pub provider_refund_id : Option String

-- What `executeRefund` is called with.
pub record RefundCall : Type 0 where
  pub payment_id : String
  pub amount : Money
  pub reason : String

-- The last is an error that the handler does not catch.
pub data Reply : Type 0 where
  order_not_found refund_no_longer_eligible : Reply
  answered : ExecutionStatus → Option String → Reply
  broken : Reply

-- The await at which a request stands, with what it still uses: the order, the answer of `reserve`,
-- the provider, the end of `recordOutcome` in the `try`, and its end in the `catch`.
pub data Progress : Type 0 where
  finding_order : WorkflowAccess → SubmissionRequest → Progress
  reserving : ReserveInput → RefundCall → Reservation → Progress
  calling : ReserveInput → String → Progress
  recording : ReserveInput → String → ExecutionStatus → Option String → Bool → Progress
  recording_unknown : ReserveInput → Bool → Progress
  finished : Reply → Progress

unfoldable pub reserve_input : SubmissionRequest → WorkflowAccess → ℕ → ReserveInput
reserve_input r access now = record {
  tenant_id = access.tenant_id;
  environment_id = access.environment_id;
  idempotency_key = r.idempotency_key;
  workflow_id = access.context_id;
  preview_id = r.preview_id;
  order_id = r.order_id;
  amount_minor = r.amount.amount_minor;
  currency = r.amount.currency;
  occurred_at = at now;
}

-- What an existing execution is answered with.
pub answer_existing : RefundExecution → Reply
answer_existing e = elim e.status [
  | ExecutionStatus.succeeded ↦ Reply.answered ExecutionStatus.succeeded e.provider_refund_id
  | ExecutionStatus.failed ↦ Reply.answered ExecutionStatus.failed none
  | ExecutionStatus.submitted ↦ Reply.answered ExecutionStatus.submitted e.provider_refund_id
  | _ ↦ Reply.answered ExecutionStatus.pending_reconciliation none
]

-- The response to a result of the provider.
pub response_of : ProviderResult → ExecutionStatus × Option String
response_of r = elim r.status [
  | ProviderStatus.submitted ↦ (ExecutionStatus.submitted, r.provider_refund_id)
  | ProviderStatus.succeeded ↦ (ExecutionStatus.succeeded, r.provider_refund_id)
  | ProviderStatus.failed ↦ (ExecutionStatus.failed, none)
]

-- `recordOutcome`: whether it is fulfilled, and the ledger behind it.
abbrev pub tried : Ledger → Result LedgerError (RefundExecution × Ledger) → Bool × Ledger
tried s (err e) = (false, s)
tried s (ok (execution, recorded)) = (true, recorded)

abbrev pub try_record : Ledger → String → ExecutionStatus → Option String → ℕ → Bool × Ledger
try_record s id status provider now = tried s (record_outcome s id status provider now)

pub is_subject : CommerceOrder → WorkflowAccess → Bool
is_subject order access = elim order.customer [
  | none ↦ false
  | some c ↦ str_eq c.id access.subject_customer_id
]

-- The tests of the context behind that for a settled payment.
pub is_ineligible : RefundContext → Money → Bool
is_ineligible context amount =
    not context.facts.transaction_refundable
    || (not context.facts.item_selection_valid
        || (not (str_eq context.facts.refundable_amount.currency amount.currency)
            || ltb_ℤ context.facts.refundable_amount.amount_minor amount.amount_minor))

abbrev pub call_for : SubmissionRequest → Payment → RefundCall
call_for r payment = record { payment_id = payment.id; amount = r.amount; reason = r.reason_code }

-- The reservation, in the same run of the code as the test of eligibility.
abbrev pub reserve_for :
    Ledger → WorkflowAccess → SubmissionRequest → RefundCall → String → ℕ → Progress × Ledger
reserve_for s access r call random_id now =
    let i = reserve_input r access now in
    let (reservation, reserved) = reserve s i random_id in
    (Progress.reserving i call reservation, reserved)

module _ (platform : TextPlatform) where
  pub current_context : CommerceOrder → SubmissionRequest → ℕ → RefundContext
  current_context order r now =
      to_refund_context platform order r.selection
        (record { observation_id = "refund-execution-check"; observed_at = at now })

  -- From the order on, with the clock's reading and the random id that a new execution takes.
  unfoldable pub check_and_reserve :
      Ledger
      → WorkflowAccess
      → SubmissionRequest
      → Option CommerceOrder
      → String
      → ℕ
      → Progress × Ledger
  unfolding is_subject is_ineligible current_context
  check_and_reserve s access r none random_id now = (Progress.finished Reply.order_not_found, s)
  check_and_reserve s access r (some order) random_id now =
      if not (is_subject order access)
      then (Progress.finished Reply.order_not_found, s)
      else elim (find (is_settled platform) order.payments) [
        | none ↦ (Progress.finished Reply.refund_no_longer_eligible, s)
        | some payment ↦
            if is_ineligible (current_context order r now) r.amount
            then (Progress.finished Reply.refund_no_longer_eligible, s)
            else reserve_for s access r (call_for r payment) random_id now
      ]

-- From the answer of `reserve` on; the provider is called last.
unfoldable pub after_reservation :
    ReserveInput → RefundCall → Reservation → Progress × Option RefundCall
unfolding answer_existing
after_reservation i call (Reservation.existing e) = (Progress.finished (answer_existing e), none)
after_reservation i call (Reservation.reserved id) = (Progress.calling i id, some call)

-- From the provider's answer on. A call that throws goes to the `catch`.
unfoldable pub after_call :
    Ledger → ReserveInput → String → Option ProviderResult → ℕ → Progress × Ledger
unfolding response_of
after_call s i id none now =
    let (done, recorded) = try_record s id ExecutionStatus.pending_reconciliation none now in
    (Progress.recording_unknown i done, recorded)
after_call s i id (some result) now =
    let (status, provider) = response_of result in
    let (done, recorded) = try_record s id status provider now in
    (Progress.recording i id status provider done, recorded)

-- From the end of `recordOutcome` in the `try` on. A rejection goes to the `catch`.
unfoldable pub after_recording :
    Ledger → ReserveInput → String → ExecutionStatus → Option String → Bool → ℕ → Progress × Ledger
after_recording s i id status provider true now =
    (Progress.finished (Reply.answered status provider), s)
after_recording s i id status provider false now =
    let (done, recorded) = try_record s id ExecutionStatus.pending_reconciliation none now in
    (Progress.recording_unknown i done, recorded)

-- From the end of `recordOutcome` in the `catch` on.
unfoldable pub after_unknown : Bool → Reply
after_unknown true = Reply.answered ExecutionStatus.pending_reconciliation none
after_unknown false = Reply.broken
