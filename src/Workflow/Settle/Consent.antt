-- ===== src/Workflow/Settle/Consent.antt =====
-- The settling phase submits a refund only on what `Justified` lists.
use customer_service_os_lite.Common.{true, ◌≡◌, arith}
use customer_service_os_lite.Policy.Types.{RefundPolicyDecision}
use customer_service_os_lite.Journey.Types.{RefundContext, RefundPreview}
use customer_service_os_lite.Workflow.Types.{
  RefundWorkflowRequest, RefundProviderOutcome, Config, SettlePoint, Resolution, Event, Point,
  Patches,
}
use customer_service_os_lite.Workflow.History.{
  History, Occurs, Justified, IsReady, SettleSound, EarlySound, ReactionSound,
}
use customer_service_os_lite.Workflow.Settle.{
  amount_still_available, execute_authorized_refund, resume_settling, signal_outcome,
}

module _ (patches : Patches) (h : History) (request : RefundWorkflowRequest) (c : Config)
    (early : EarlySound patches h c) where
  pub execute_authorized_sound :
      (d : RefundPolicyDecision) (p : RefundPreview)
      → IsReady patches h d p
      → ReactionSound patches h (execute_authorized_refund request c d p)
  unfolding execute_authorized_refund
  execute_authorized_sound d p ready = ground arith

  justified :
      (d : RefundPolicyDecision) (p : RefundPreview) (facts : RefundContext)
      → IsReady patches h d p
      → Occurs (Event.resolved (Resolution.context_read facts)) h
      → amount_still_available facts p ≡ true
      → Justified patches h p
  justified d p facts (offered, consent, authority) o available = record {
    offered = offered;
    consent = consent;
    decision = d;
    authority = authority;
    facts = facts;
    refreshed = o;
    available = available;
  }

  pub resume_settling_sound :
      (at : SettlePoint) (r : Resolution)
      → c.point ≡ Point.settling at
      → SettleSound patches h at
      → Occurs (Event.resolved r) h
      → ReactionSound patches h (resume_settling request c at r)
  unfolding resume_settling
  resume_settling_sound (SettlePoint.checking_evidence d p) r e s o = ground arith
  resume_settling_sound (SettlePoint.rechecking_context d p) (Resolution.context_read facts) e s o =
      ground (arith, justified d p facts s o)
  resume_settling_sound (SettlePoint.rechecking_context d p) r e s o = ground arith
  resume_settling_sound (SettlePoint.executing d p) r e s o = ground arith
  resume_settling_sound (SettlePoint.reconciling_outcome d p provider) r e s o = ground arith
  resume_settling_sound (SettlePoint.awaiting_outcome d p provider) r e s o = ground arith
  resume_settling_sound (SettlePoint.reconciling_pending d p n) r e s o = ground arith
  resume_settling_sound (SettlePoint.sleeping_pending d p n) r e s o = ground arith

  pub signal_outcome_sound :
      (at : SettlePoint) (o : RefundProviderOutcome)
      → c.point ≡ Point.settling at
      → SettleSound patches h at
      → ReactionSound patches h (signal_outcome c at o)
  unfolding signal_outcome
  signal_outcome_sound (SettlePoint.checking_evidence d p) o e s = ground arith
  signal_outcome_sound (SettlePoint.rechecking_context d p) o e s = ground arith
  signal_outcome_sound (SettlePoint.executing d p) o e s = ground arith
  signal_outcome_sound (SettlePoint.reconciling_outcome d p provider) o e s = ground arith
  signal_outcome_sound (SettlePoint.awaiting_outcome d p provider) o e s = ground arith
  signal_outcome_sound (SettlePoint.reconciling_pending d p n) o e s = ground arith
  signal_outcome_sound (SettlePoint.sleeping_pending d p n) o e s = ground arith
