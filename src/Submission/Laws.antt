-- ===== src/Submission/Laws.antt =====
-- The submission of refunds (apps/services/integration-gateway/src/refund-execution-routes.ts): a key
-- reaches the provider once, and never with more than the payment has left.
use customer_service_os_lite.Common.{
  ℕ, zero, suc, ◌+◌, ◌≤◌, Bool, true, false, ◌≡◌, ◌≢◌, refl, sym, ap, subst, ◌∙◌, inl, inr,
  Bool-cases, Option-cases, Option, none, some, List, [], ◌∷◌, ◌++◌, String, str_eq, str_eq_iff,
  arith, if◌then◌else◌, Result, ok, err,
}
use customer_service_os_lite.Common.Int.{pos, ◌≤ℤ◌, ◌<ℤ◌}
use customer_service_os_lite.Common.Lists.{keep, find}
use customer_service_os_lite.Common.Maps.{map_get, map_set, get-set-same, get-set-other}
use customer_service_os_lite.Common.Dates.{at}
use customer_service_os_lite.Policy.Types.{Money}
use customer_service_os_lite.Journey.Types.{RefundContext}
use customer_service_os_lite.Gateway.Types.{CommerceOrder, Payment, ObservationMetadata}
use customer_service_os_lite.Gateway.Context.{TextPlatform, is_settled, to_refund_context}
use customer_service_os_lite.Gateway.Context.Laws.{Covers, refundable-Covers}
use customer_service_os_lite.Executions.{
  ExecutionStatus, Execution, RefundExecution, ReserveInput, Ledger, Reservation, new_execution,
  reservation_key, reserve, record_outcome, LedgerError,
}
use customer_service_os_lite.Executions.Laws.{reserve_known}
use customer_service_os_lite.Executions.Runs.{
  Operation, ledger_or, after_operation, after_operation-IsKnown,
}
use customer_service_os_lite.Submission.{
  tried, reserve_input, SubmissionRequest, WorkflowAccess, ProviderResult, RefundCall, Progress,
  try_record, call_for, check_and_reserve, after_reservation, after_call, after_recording,
  is_subject, is_ineligible, current_context, response_of,
}
use customer_service_os_lite.Submission.Service.{
  KeyedCall, Resumption, Resumed, Service, Happening, resume, resume_at, step, run_service,
}

-- 1 if an execution is known under the key, else 0.
abbrev pub present : Option Execution → ℕ
present none = 0
present (some e) = 1

abbrev pub known : String → Ledger → ℕ
known key s = present (map_get key s.executions)

present-le : (o : Option Execution) → present o ≤ 1
present-le none = omega arith
present-le (some e) = omega arith

-- 1 if the request is about to call the provider under the key, else 0.
abbrev waiting : String → Progress → ℕ
waiting key (Progress.reserving i call (Reservation.reserved id)) =
    if str_eq (reservation_key i) key then 1 else 0
waiting key _ = 0

abbrev all_waiting : String → List Progress → ℕ
all_waiting key [] = 0
all_waiting key (p ∷ ps) = waiting key p + all_waiting key ps

-- The calls of the provider under a key.
abbrev pub calls_under : String → List KeyedCall → ℕ
calls_under key [] = 0
calls_under key (c ∷ cs) = (if str_eq c.key key then 1 else 0) + calls_under key cs

all_waiting-append :
    (key : String) (ps qs : List Progress)
    → all_waiting key (ps ++ qs) ≡ all_waiting key ps + all_waiting key qs
all_waiting-append key [] qs = omega arith
all_waiting-append key (p ∷ ps) qs = let rest = all_waiting-append key ps qs in omega arith

calls_under-append :
    (key : String) (cs ds : List KeyedCall)
    → calls_under key (cs ++ ds) ≡ calls_under key cs + calls_under key ds
calls_under-append key [] ds = omega arith
calls_under-append key (c ∷ cs) ds = let rest = calls_under-append key cs ds in omega arith

operation-known :
    (o : Operation) (s : Ledger) (key : String) → known key s ≤ known key (after_operation o s)
operation-known o s key = elim (Option-cases (map_get key s.executions)) [
  | inl none_there ↦ let is = ap present none_there in omega arith
  | inr (e, there) ↦
      let kept =
        after_operation-IsKnown o s key e.execution_id
          (record { execution = e; stored = there; named = refl }) in
      let before = ap present there in let still = ap present kept.stored in omega arith
]

tried-ledger :
    (s : Ledger) (x : Result LedgerError (RefundExecution × Ledger)) → ledger_or s x ≡ (tried s x).1
tried-ledger s (ok (e, t)) = refl
tried-ledger s (err e) = refl

try_record-known :
    (s : Ledger) (id : String) (status : ExecutionStatus) (provider : Option String) (now : ℕ)
    (key : String)
    → known key s ≤ known key (try_record s id status provider now).1
try_record-known s id status provider now key =
    subst (λ t. known key s ≤ known key t)
      (tried-ledger s (record_outcome s id status provider now))
      (operation-known (Operation.outcome id status provider now) s key)

reserve_new :
    (s : Ledger) (i : ReserveInput) (id : String)
    → map_get (reservation_key i) s.executions ≡ none
    → reserve s i id ≡ (
      Reservation.reserved id,
      record s {
        executions =
            map_set (reservation_key i) (new_execution i (reservation_key i) id) s.executions;
      },
    )
unfolding reserve
reserve_new s i id h = ground arith

-- A reservation that lets its request call makes the key known.
abbrev Weighs : String → Ledger → ReserveInput → RefundCall → Reservation × Ledger → Type 0
Weighs key s i call x = waiting key (Progress.reserving i call x.0) + known key s ≤ known key x.1

reserve-Weighs :
    (s : Ledger) (i : ReserveInput) (call : RefundCall) (random_id key : String)
    → Weighs key s i call (reserve s i random_id)
reserve-Weighs s i call random_id key =
    let k = reservation_key i in
    let new = new_execution i k random_id in
    elim (Option-cases (map_get k s.executions)) [
      | inr (e, there) ↦
          subst (Weighs key s i call) (sym (reserve_known s i random_id e there)) (omega arith)
      | inl fresh ↦
          subst (Weighs key s i call) (sym (reserve_new s i random_id fresh))
            (elim (Bool-cases (str_eq k key)) [
              | inl same ↦
                  let is : k ≡ key = (str_eq_iff k key).0 same in
                  let before = ap present (ap (λ x. map_get x s.executions) (sym is) ∙ fresh) in
                  let behind = ap present (
                    ap (λ x. map_get x (map_set k new s.executions)) (sym is)
                    ∙ get-set-same k new s.executions) in
                  rw same (omega arith)
              | inr other ↦
                  let apart : key ≢ k =
                    λ e. (let is = (str_eq_iff k key).1 (sym e) in absurd (cc (is, other))) in
                  let kept = ap present (get-set-other k key new s.executions apart) in
                  rw other (omega arith)
            ])
    ]

module _ (platform : TextPlatform) (key : String) where
  -- What is known behind a request's run covers what was known, the call that it waits for and the
  -- calls that it has made; what it waited for counts on the other side.
  abbrev IsPaid : Ledger → Progress → Resumed → Type 0
  IsPaid s p r =
      waiting key r.progress + calls_under key r.calls + known key s
      ≤ waiting key p + known key r.ledger

  check_and_reserve-Weighs :
      (s : Ledger) (access : WorkflowAccess) (r : SubmissionRequest) (found : Option CommerceOrder)
      (id : String) (now : ℕ)
      → waiting key (check_and_reserve platform s access r found id now).0 + known key s
        ≤ known key (check_and_reserve platform s access r found id now).1
  unfolding check_and_reserve
  check_and_reserve-Weighs s access r none id now = omega arith
  check_and_reserve-Weighs s access r (some order) id now =
      elim (Bool-cases (is_subject order access)) [
        | inr other ↦ rw other (omega arith)
        | inl subject ↦ elim (Option-cases (find (is_settled platform) order.payments)) [
          | inl absent ↦ rw (subject, absent) (omega arith)
          | inr (p, paid) ↦
              elim (Bool-cases (is_ineligible (current_context platform order r now) r.amount)) [
                | inl refused ↦ rw (subject, paid, refused) (omega arith)
                | inr eligible ↦
                    rw (subject, paid, eligible)
                      (reserve-Weighs s (reserve_input r access now) (call_for r p) id key)
              ]
        ]
      ]

  after_call-Weighs :
      (s : Ledger) (i : ReserveInput) (id : String) (result : Option ProviderResult) (now : ℕ)
      → waiting key (after_call s i id result now).0 + known key s
        ≤ known key (after_call s i id result now).1
  unfolding after_call
  after_call-Weighs s i id none now =
      let grown = try_record-known s id ExecutionStatus.pending_reconciliation none now key in
      omega arith
  after_call-Weighs s i id (some result) now =
      let (status, provider) = response_of result in
      let grown = try_record-known s id status provider now key in omega arith

  resume-IsPaid : (s : Ledger) (p : Progress) (w : Resumption) → IsPaid s p (resume platform s p w)
  unfolding resume after_reservation after_recording
  resume-IsPaid s (Progress.finding_order access r) w =
      let fair = check_and_reserve-Weighs s access r w.order w.random_id w.now in omega arith
  resume-IsPaid s (Progress.reserving i call (Reservation.existing e)) w = omega arith
  resume-IsPaid s (Progress.reserving i call (Reservation.reserved id)) w = omega arith
  resume-IsPaid s (Progress.calling i id) w =
      let grown = after_call-Weighs s i id w.result w.now in omega arith
  resume-IsPaid s (Progress.recording i id status provider true) w = omega arith
  resume-IsPaid s (Progress.recording i id status provider false) w =
      let grown = try_record-known s id ExecutionStatus.pending_reconciliation none w.now key in
      omega arith
  resume-IsPaid s (Progress.recording_unknown i done) w = omega arith
  resume-IsPaid s (Progress.finished reply) w = omega arith

  resume_at-paid :
      (n : ℕ) (s : Ledger) (ps : List Progress) (w : Resumption)
      → (let ((rest, ledger), calls) = resume_at platform n s ps w in
          all_waiting key rest + calls_under key calls + known key s
          ≤ all_waiting key ps + known key ledger)
  unfolding resume_at
  resume_at-paid n s [] w = omega arith
  resume_at-paid zero s (p ∷ ps) w = let paid = resume-IsPaid s p w in omega arith
  resume_at-paid (suc n) s (p ∷ ps) w = let rest = resume_at-paid n s ps w in omega arith

  -- The calls so far and the requests that are about to call are covered by what
  -- has become known since the start, when `base` was known.
  abbrev IsCovered : ℕ → Service → Type 0
  IsCovered base s =
      all_waiting key s.requests + calls_under key s.calls + base ≤ known key s.ledger

  step-IsCovered :
      (h : Happening) (base : ℕ) (s : Service)
      → IsCovered base s
      → IsCovered base (step platform h s)
  unfolding step
  step-IsCovered (Happening.arrival access r) base s inv =
      let more = all_waiting-append key s.requests (Progress.finding_order access r ∷ []) in
      omega arith
  step-IsCovered (Happening.resumption n w) base s inv =
      let paid = resume_at-paid n s.ledger s.requests w in
      let calls = calls_under-append key (resume_at platform n s.ledger s.requests w).1 s.calls in
      omega arith
  step-IsCovered (Happening.operation o) base s inv =
      let grown = operation-known o s.ledger key in omega arith

  run_service-IsCovered :
      (hs : List Happening) (base : ℕ) (s : Service)
      → IsCovered base s
      → IsCovered base (run_service platform hs s)
  unfolding run_service
  run_service-IsCovered [] base s inv = inv
  run_service-IsCovered (h ∷ hs) base s inv =
      run_service-IsCovered hs base (step platform h s) (step-IsCovered h base s inv)

-- A service at a ledger that no request has reached yet.
abbrev pub idle : Ledger → Service
idle s = record { ledger = s; requests = []; calls = [] }

-- A key reaches the provider at most once: whatever the ledger is when the service starts, and in
-- whatever order requests then arrive and run from one await to the next, with any orders, results of
-- the provider, random ids and times, and others call the repository in between, the requests with one
-- reservation key call the provider at most once in all, and never if the ledger knew the key at
-- first.
pub submit_once :
    (platform : TextPlatform) (hs : List Happening) (s : Ledger) (key : String)
    → calls_under key (run_service platform hs (idle s)).calls + known key s ≤ 1
submit_once platform hs s key =
    let inv = run_service-IsCovered platform key hs (known key s) (idle s) (omega arith) in
    let most = present-le (map_get key (run_service platform hs (idle s)).ledger.executions) in
    omega arith

find-keep :
    (test : Payment → Bool) (ps : List Payment) (p q : Payment)
    → find test ps ≡ some q
    → keep test ps ≡ p ∷ []
    → q ≡ p
find-keep test [] p q h k = absurd (cc k)
find-keep test (x ∷ xs) p q h k = let rest = find-keep test xs p q in ground arith

module _ (platform : TextPlatform) (order : CommerceOrder) (r : SubmissionRequest) (now : ℕ) where
  -- The call is for the first settled payment, and the request was eligible.
  record IsBacked (call : RefundCall) : Type 0 where
    payment : Payment
    paid : find (is_settled platform) order.payments ≡ some payment
    is : call ≡ call_for r payment
    eligible : is_ineligible (current_context platform order r now) r.amount ≡ false

  abbrev IsReady : Progress → Type 0
  IsReady (Progress.reserving i call reservation) = IsBacked call
  IsReady (Progress.finished reply) = Unit
  IsReady _ = ⊥

  check_and_reserve-IsReady :
      (s : Ledger) (access : WorkflowAccess) (id : String)
      → IsReady (check_and_reserve platform s access r (some order) id now).0
  unfolding check_and_reserve
  check_and_reserve-IsReady s access id = elim (Bool-cases (is_subject order access)) [
    | inr other ↦ rw other tt
    | inl subject ↦ elim (Option-cases (find (is_settled platform) order.payments)) [
      | inl absent ↦ rw (subject, absent) tt
      | inr (p, paid) ↦
          elim (Bool-cases (is_ineligible (current_context platform order r now) r.amount)) [
            | inl refused ↦ rw (subject, paid, refused) tt
            | inr eligible ↦
                let backed : IsBacked (call_for r p) = record {
                  payment = p;
                  paid = paid;
                  is = refl;
                  eligible = eligible;
                } in
                rw (subject, paid, eligible) backed
          ]
    ]
  ]

  ready-IsBacked :
      (t : Ledger) (p : Progress) (w : Resumption) (c : KeyedCall)
      → IsReady p
      → (resume platform t p w).calls ≡ c ∷ []
      → IsBacked c.call
  unfolding resume after_reservation
  ready-IsBacked t (Progress.reserving i call (Reservation.reserved id)) w c ready h =
      let same : call ≡ c.call = cc h in subst IsBacked same ready
  ready-IsBacked t (Progress.reserving i call (Reservation.existing e)) w c ready h = absurd (cc h)
  ready-IsBacked t (Progress.finished reply) w c ready h = absurd (cc h)
  ready-IsBacked t (Progress.finding_order access q) w c ready h = absurd ready
  ready-IsBacked t (Progress.calling i id) w c ready h = absurd ready
  ready-IsBacked t (Progress.recording i id status provider done) w c ready h = absurd ready
  ready-IsBacked t (Progress.recording_unknown i done) w c ready h = absurd ready

eligible-within :
    (context : RefundContext) (amount : Money)
    → is_ineligible context amount ≡ false
    → amount.amount_minor ≤ℤ context.facts.refundable_amount.amount_minor
unfolding is_ineligible
eligible-within context amount h = ground arith

context_is :
    (platform : TextPlatform) (order : CommerceOrder) (r : SubmissionRequest) (now : ℕ)
    → current_context platform order r now
      ≡ to_refund_context platform order r.selection
          (record { observation_id = "refund-execution-check"; observed_at = at now })
unfolding current_context
context_is platform order r now = refl

-- Whatever happens between the run of a request up to its reservation and the next: if the provider
-- is then called, for a request with a positive amount, then the order that the request found has
-- exactly one settled payment, the call is for that payment and for the request's amount, and the
-- payment covers the amount along with all of its refunds that have neither failed nor been
-- cancelled.
pub submit-Covers :
    (platform : TextPlatform) (s t : Ledger) (access : WorkflowAccess) (r : SubmissionRequest)
    (order : CommerceOrder) (w w' : Resumption) (c : KeyedCall)
    → pos 0 <ℤ r.amount.amount_minor
    → w.order ≡ some order
    → (resume platform t (resume platform s (Progress.finding_order access r) w).progress w').calls
      ≡ c ∷ []
    → (p : Payment) × (keep (is_settled platform) order.payments ≡ p ∷ [])
      × (c.call.payment_id ≡ p.id)
      × (c.call.amount ≡ r.amount)
      × Covers platform p r.amount.amount_minor
submit-Covers platform s t access r order w w' c positive found called =
    let first = (resume platform s (Progress.finding_order access r) w).progress in
    let ready : IsReady platform order r w.now first =
      unfold resume in
      subst
        (λ o.
          IsReady platform order r w.now
            (check_and_reserve platform s access r o w.random_id w.now).0)
        (sym found) (check_and_reserve-IsReady platform order r w.now s access w.random_id) in
    let backed = ready-IsBacked platform order r w.now t first w' c ready called in
    let metadata : ObservationMetadata = record {
      observation_id = "refund-execution-check";
      observed_at = at w.now;
    } in
    let within =
      eligible-within (current_context platform order r w.now) r.amount backed.eligible in
    let (p, sole, covers) =
      refundable-Covers platform order r.selection metadata r.amount.amount_minor positive (
        subst
          (λ (x : RefundContext). r.amount.amount_minor ≤ℤ x.facts.refundable_amount.amount_minor)
          (context_is platform order r w.now) within) in
    let same = find-keep (is_settled platform) order.payments p backed.payment backed.paid sole in
    (
      p,
      sole,
      ap (λ (x : RefundCall). x.payment_id) backed.is ∙ ap (λ (x : Payment). x.id) same,
      ap (λ (x : RefundCall). x.amount) backed.is,
      covers,
    )
