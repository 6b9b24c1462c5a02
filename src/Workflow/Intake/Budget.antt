-- ===== src/Workflow/Intake/Budget.antt =====
-- The intake phase submits no refund.
use customer_service_os_lite.Common.{ℕ, ◌≡◌, arith}
use customer_service_os_lite.Workflow.Types.{
  RefundWorkflowRequest, Config, IntakePoint, Resolution, Point,
}
use customer_service_os_lite.Workflow.Budget.{Spends}
use customer_service_os_lite.Workflow.Settle.{reconcile_pending_refund}
use customer_service_os_lite.Workflow.Offer.Budget.{switch_effect-Spends}
use customer_service_os_lite.Workflow.Intake.{resume_intake, start}

pub resume_intake-Spends :
    (request : RefundWorkflowRequest) (c : Config) (now : ℕ) (at : IntakePoint) (r : Resolution)
    → c.point ≡ Point.intake at
    → Spends 1 (resume_intake request c now at r)
unfolding resume_intake
resume_intake-Spends request c now IntakePoint.reading_context r h =
    grind (arith, switch_effect-Spends)
resume_intake-Spends request c now (IntakePoint.evaluating context) r h =
    grind (arith, switch_effect-Spends)
resume_intake-Spends request c now (IntakePoint.opening_evidence context d) r h = ground arith
resume_intake-Spends request c now (IntakePoint.sleeping d deadline polls) r h = ground arith
resume_intake-Spends request c now (IntakePoint.reading_evidence d deadline polls) r h =
    ground arith
resume_intake-Spends request c now (IntakePoint.expiring d) r h = ground arith
resume_intake-Spends request c now (IntakePoint.refreshing e) r h = ground arith
resume_intake-Spends request c now (IntakePoint.reevaluating e context) r h =
    grind (arith, switch_effect-Spends)
resume_intake-Spends request c now (IntakePoint.completing e context d) r h =
    grind (arith, switch_effect-Spends)

pub start-Spends : (request : RefundWorkflowRequest) → Spends 1 (start request)
unfolding start reconcile_pending_refund
start-Spends request = ground arith
