-- ===== src/Workflow/Settle/Budget.antt =====
-- The settling phase submits a refund at most once.
use customer_service_os_lite.Common.{◌≡◌, arith}
use customer_service_os_lite.Policy.Types.{RefundPolicyDecision}
use customer_service_os_lite.Journey.Types.{RefundPreview}
use customer_service_os_lite.Workflow.Types.{
  RefundWorkflowRequest, RefundProviderOutcome, Config, SettlePoint, Resolution, Point,
}
use customer_service_os_lite.Workflow.Budget.{Spends, settle_budget}
use customer_service_os_lite.Workflow.Settle.{
  execute_authorized_refund, resume_settling, signal_outcome,
}

pub execute_authorized-Spends :
    (request : RefundWorkflowRequest) (c : Config) (d : RefundPolicyDecision) (p : RefundPreview)
    → Spends 1 (execute_authorized_refund request c d p)
unfolding execute_authorized_refund
execute_authorized-Spends request c d p = ground arith

pub resume_settling-Spends :
    (request : RefundWorkflowRequest) (c : Config) (at : SettlePoint) (r : Resolution)
    → c.point ≡ Point.settling at
    → Spends (settle_budget at) (resume_settling request c at r)
unfolding resume_settling
resume_settling-Spends request c (SettlePoint.checking_evidence d p) r h = ground arith
resume_settling-Spends request c (SettlePoint.rechecking_context d p) r h = ground arith
resume_settling-Spends request c (SettlePoint.executing d p) r h = ground arith
resume_settling-Spends request c (SettlePoint.reconciling_outcome d p provider) r h = ground arith
resume_settling-Spends request c (SettlePoint.awaiting_outcome d p provider) r h = ground arith
resume_settling-Spends request c (SettlePoint.reconciling_pending d p n) r h = ground arith
resume_settling-Spends request c (SettlePoint.sleeping_pending d p n) r h = ground arith

pub signal_outcome-Spends :
    (c : Config) (at : SettlePoint) (o : RefundProviderOutcome)
    → c.point ≡ Point.settling at
    → Spends (settle_budget at) (signal_outcome c at o)
unfolding signal_outcome
signal_outcome-Spends c (SettlePoint.checking_evidence d p) o h = ground arith
signal_outcome-Spends c (SettlePoint.rechecking_context d p) o h = ground arith
signal_outcome-Spends c (SettlePoint.executing d p) o h = ground arith
signal_outcome-Spends c (SettlePoint.reconciling_outcome d p provider) o h = ground arith
signal_outcome-Spends c (SettlePoint.awaiting_outcome d p provider) o h = ground arith
signal_outcome-Spends c (SettlePoint.reconciling_pending d p n) o h = ground arith
signal_outcome-Spends c (SettlePoint.sleeping_pending d p n) o h = ground arith
