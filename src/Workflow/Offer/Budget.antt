-- ===== src/Workflow/Offer/Budget.antt =====
-- The offering phase submits no refund, and hands at most one submission on.
use customer_service_os_lite.Common.{ℕ, ◌≡◌, Bool, true, false, arith}
use customer_service_os_lite.Policy.Types.{RefundPolicyDecision, PolicyEffect}
use customer_service_os_lite.Journey.Types.{RefundContext, RefundPreview}
use customer_service_os_lite.Workflow.Types.{
  RefundWorkflowRequest, RefundCustomerConfirmation, RefundHumanDecision, RefundWorkflowState,
  Config, OfferPoint, Resolution, Point, Patches, Route, automatic, approval, exceptional,
  HumanAction,
}
use customer_service_os_lite.Workflow.Budget.{Spends}
use customer_service_os_lite.Workflow.Settle.Budget.{execute_authorized-Spends}
use customer_service_os_lite.Workflow.Offer.{
  withdraw, unconfirmed, after_confirmation, confirmed, wait_for_confirmation, approval_closed,
  switch_effect, resume_offering, signal_confirmation, signal_decision,
}

withdraw-Spends :
    (c : Config) (route : Route) (next : RefundWorkflowState) → Spends 1 (withdraw c route next)
unfolding withdraw
withdraw-Spends c route next = ground arith

unconfirmed-Spends : (c : Config) (route : Route) → Spends 1 (unconfirmed c route)
unfolding unconfirmed
unconfirmed-Spends c route = ground arith

module _ (request : RefundWorkflowRequest) (c : Config) (d : RefundPolicyDecision)
    (p : RefundPreview) where
  after_confirmation-Spends :
      (route : Route) (b : Bool) → Spends 1 (after_confirmation request c route d p b)
  unfolding after_confirmation
  after_confirmation-Spends route false = withdraw-Spends c route _
  after_confirmation-Spends approval true = ground arith
  after_confirmation-Spends automatic true = execute_authorized-Spends request c d p
  after_confirmation-Spends (exceptional id) true = execute_authorized-Spends request c d p

  confirmed-Spends :
      (patches : Patches) (route : Route) (k : RefundCustomerConfirmation)
      → Spends 1 (confirmed request patches c route d p k)
  unfolding confirmed
  confirmed-Spends patches route k = ground (arith, after_confirmation-Spends route k.accepted)

  approval_closed-Spends : (a : HumanAction) → Spends 1 (approval_closed request c d p a)
  unfolding approval_closed
  approval_closed-Spends a = ground (arith, execute_authorized-Spends request c d p)

  wait_for-Spends :
      (patches : Patches) (now : ℕ) (route : Route)
      → Spends 1 (wait_for_confirmation request patches c now route d p)
  unfolding wait_for_confirmation
  wait_for-Spends patches now route =
      grind (arith, confirmed-Spends patches route, unconfirmed-Spends c route)

pub switch_effect-Spends :
    (c : Config) (context : RefundContext) (d : RefundPolicyDecision) (effect : PolicyEffect)
    → Spends 1 (switch_effect c context d effect)
unfolding switch_effect
switch_effect-Spends c context d effect = ground arith

module _ (request : RefundWorkflowRequest) (patches : Patches) (c : Config) (now : ℕ) where
  pub resume_offering-Spends :
      (at : OfferPoint) (r : Resolution)
      → c.point ≡ Point.offering at
      → Spends 1 (resume_offering request patches c now at r)
  unfolding resume_offering
  resume_offering-Spends (OfferPoint.previewing route d) (Resolution.preview_made p) h =
      wait_for-Spends request _ d p patches now route
  resume_offering-Spends (OfferPoint.previewing route d) r h = ground arith
  resume_offering-Spends (OfferPoint.confirming route d p) r h =
      ground (arith, unconfirmed-Spends c route)
  resume_offering-Spends (OfferPoint.observing route d p k) r h =
      ground (arith, after_confirmation-Spends request c d p route k.accepted)
  resume_offering-Spends (OfferPoint.withdrawing next) r h = ground arith
  resume_offering-Spends (OfferPoint.opening_approval d p) r h = ground arith
  resume_offering-Spends (OfferPoint.awaiting_approval d p id) r h = ground arith
  resume_offering-Spends (OfferPoint.closing_approval d p k) r h =
      ground (arith, approval_closed-Spends request c d p k.decision)
  resume_offering-Spends (OfferPoint.opening_takeover d) r h = ground arith
  resume_offering-Spends (OfferPoint.awaiting_takeover d id) r h = ground arith
  resume_offering-Spends (OfferPoint.closing_takeover d id k) r h = ground arith
  resume_offering-Spends (OfferPoint.refreshing_exception d id) r h = ground arith
  resume_offering-Spends (OfferPoint.rereading_exception d id context a) r h = ground arith
  resume_offering-Spends (OfferPoint.redeciding_exception id context) r h = ground arith

  pub signal_confirmation-Spends :
      (at : OfferPoint) (k : RefundCustomerConfirmation)
      → c.point ≡ Point.offering at
      → Spends 1 (signal_confirmation request patches c now at k)
  unfolding signal_confirmation
  signal_confirmation-Spends (OfferPoint.confirming route d p) k h =
      grind (arith, confirmed-Spends request c d p patches route, unconfirmed-Spends c route)
  signal_confirmation-Spends at k h = ground arith

pub signal_decision-Spends :
    (c : Config) (at : OfferPoint) (k : RefundHumanDecision)
    → c.point ≡ Point.offering at
    → Spends 1 (signal_decision c at k)
unfolding signal_decision
signal_decision-Spends c (OfferPoint.awaiting_approval d p id) k h = ground arith
signal_decision-Spends c (OfferPoint.awaiting_takeover d id) k h = ground arith
signal_decision-Spends c at k h = ground arith
