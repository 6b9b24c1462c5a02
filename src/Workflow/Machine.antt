-- ===== src/Workflow/Machine.antt =====
-- Runs of the refund workflow (apps/services/workflow-workers/src/refund-workflow.ts): any sequence
-- of resolved awaits and signals, each at the workflow's clock.
pub mod Budget
pub mod Consent
use customer_service_os_lite.Common.{ℕ, List, [], ◌∷◌, ◌++◌}
use customer_service_os_lite.Workflow.Types.{
  RefundWorkflowRequest, RefundCustomerConfirmation, RefundHumanDecision, RefundProviderOutcome,
  Command, Resolution, Signal, Event, Point, Config, Patches, Reaction,
}
use customer_service_os_lite.Workflow.Settle.{resume_settling, signal_outcome}
use customer_service_os_lite.Workflow.Offer.{resume_offering, signal_confirmation, signal_decision}
use customer_service_os_lite.Workflow.Intake.{resume_intake, start}

module _ (request : RefundWorkflowRequest) (patches : Patches) where
  resume : Config → ℕ → Point → Resolution → Reaction
  resume c now (Point.intake at) r = resume_intake request c now at r
  resume c now (Point.offering at) r = resume_offering request patches c now at r
  resume c now (Point.settling at) r = resume_settling request c at r
  resume c now _ r = (c, [])

  confirm : Config → ℕ → Point → RefundCustomerConfirmation → Reaction
  confirm c now (Point.offering at) k = signal_confirmation request patches c now at k
  confirm c now _ k = (record c { early_confirmations = c.early_confirmations ++ k ∷ [] }, [])

  decide : Config → Point → RefundHumanDecision → Reaction
  decide c (Point.offering at) h = signal_decision c at h
  decide c _ h = (record c { early_decisions = c.early_decisions ++ h ∷ [] }, [])

  settle : Config → Point → RefundProviderOutcome → Reaction
  settle c (Point.settling at) o = signal_outcome c at o
  settle c _ o = (record c { early_outcomes = c.early_outcomes ++ o ∷ [] }, [])

  unfoldable pub step : Config → ℕ → Event → Reaction
  unfolding resume confirm decide settle
  step c now (Event.resolved r) = resume c now c.point r
  step c now (Event.signalled (Signal.confirm_refund k)) = confirm c now c.point k
  step c now (Event.signalled (Signal.decide_refund h)) = decide c c.point h
  step c now (Event.signalled (Signal.record_provider_refund_outcome o)) = settle c c.point o

  -- The commands of a run, in the order in which they are issued.
  run_from : Config → List Command → List (ℕ × Event) → Reaction
  run_from c issued [] = (c, issued)
  run_from c issued ((now, e) ∷ es) =
      let (c', commands) = step c now e in run_from c' (issued ++ commands) es

  unfoldable pub run : List (ℕ × Event) → Reaction
  unfolding run_from
  run es = let (c, commands) = start request in run_from c commands es
