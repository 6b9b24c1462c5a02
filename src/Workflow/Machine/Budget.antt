-- ===== src/Workflow/Machine/Budget.antt =====
-- A run of the workflow submits at most one refund.
use customer_service_os_lite.Common.{ℕ, ◌+◌, ◌≤◌, ◌≡◌, refl, List, [], ◌∷◌, ◌++◌, arith}
use customer_service_os_lite.Workflow.Types.{
  RefundWorkflowRequest, RefundCustomerConfirmation, RefundHumanDecision, RefundProviderOutcome,
  Config, Point, Patches, Event, Signal, Resolution, Command,
}
use customer_service_os_lite.Workflow.Budget.{Spends, submissions, submissions-append, budget}
use customer_service_os_lite.Workflow.Settle.Budget.{resume_settling-Spends, signal_outcome-Spends}
use customer_service_os_lite.Workflow.Offer.Budget.{
  resume_offering-Spends, signal_confirmation-Spends, signal_decision-Spends,
}
use customer_service_os_lite.Workflow.Intake.{start}
use customer_service_os_lite.Workflow.Intake.Budget.{resume_intake-Spends, start-Spends}
use customer_service_os_lite.Workflow.Machine.{resume, confirm, decide, settle, step, run_from, run}

module _ (request : RefundWorkflowRequest) (patches : Patches) where
  module _ (c : Config) (now : ℕ) where
    resume-Spends :
        (at : Point) (r : Resolution)
        → c.point ≡ at
        → Spends (budget at) (resume request patches c now at r)
    unfolding resume
    resume-Spends (Point.intake at) r h = resume_intake-Spends request c now at r h
    resume-Spends (Point.offering at) r h = resume_offering-Spends request patches c now at r h
    resume-Spends (Point.settling at) r h = resume_settling-Spends request c at r h
    resume-Spends at r h = ground arith

    confirm-Spends :
        (at : Point) (k : RefundCustomerConfirmation)
        → c.point ≡ at
        → Spends (budget at) (confirm request patches c now at k)
    unfolding confirm
    confirm-Spends (Point.offering at) k h = signal_confirmation-Spends request patches c now at k h
    confirm-Spends at k h = ground arith

    decide-Spends :
        (at : Point) (k : RefundHumanDecision)
        → c.point ≡ at
        → Spends (budget at) (decide request patches c at k)
    unfolding decide
    decide-Spends (Point.offering at) k h = signal_decision-Spends c at k h
    decide-Spends at k h = ground arith

    settle-Spends :
        (at : Point) (o : RefundProviderOutcome)
        → c.point ≡ at
        → Spends (budget at) (settle request patches c at o)
    unfolding settle
    settle-Spends (Point.settling at) o h = signal_outcome-Spends c at o h
    settle-Spends at o h = ground arith

  pub step-Spends :
      (c : Config) (now : ℕ) (e : Event) → Spends (budget c.point) (step request patches c now e)
  unfolding step
  step-Spends c now (Event.resolved r) = resume-Spends c now c.point r refl
  step-Spends c now (Event.signalled (Signal.confirm_refund k)) =
      confirm-Spends c now c.point k refl
  step-Spends c now (Event.signalled (Signal.decide_refund k)) = decide-Spends c now c.point k refl
  step-Spends c now (Event.signalled (Signal.record_provider_refund_outcome o)) =
      settle-Spends c now c.point o refl

  run_from-Spends :
      (c : Config) (issued : List Command) (es : List (ℕ × Event))
      → submissions issued + budget c.point ≤ 1
      → Spends 1 (run_from request patches c issued es)
  unfolding run_from
  run_from-Spends c issued [] h = h
  run_from-Spends c issued ((now, e) ∷ es) h =
      let (c', commands) = step request patches c now e in
      run_from-Spends c' (issued ++ commands) es
        (omega (arith, step-Spends c now e, submissions-append issued commands))

  -- Whatever activities return, timers do and signals arrive, in any order, one run of the workflow
  -- issues the submission of a refund at most once.
  pub run_submits_once : (es : List (ℕ × Event)) → submissions (run request patches es).1 ≤ 1
  unfolding run
  run_submits_once es =
      let spent = run_from-Spends (start request).0 (start request).1 es (start-Spends request) in
      omega arith
