-- ===== src/Gateway/Covered.antt =====
-- From the commerce order to the offer: the gateway's context (refund-context.ts) under the
-- decisions of the workflow's activities (refund-workflow-activities.ts).
use customer_service_os_lite.Common.{◌≡◌, Option, [], ◌∷◌, String, ok}
use customer_service_os_lite.Common.Int.{pos, ◌<ℤ◌}
use customer_service_os_lite.Common.Lists.{keep}
use customer_service_os_lite.Policy.Types.{RefundPolicyDecision}
use customer_service_os_lite.Journey.Types.{
  RefundProposal, Selection, AcceptedDamageEvidence, RefundPreview, RefundPreviewAuthorization,
}
use customer_service_os_lite.Journey.Activities.{
  Dependencies, evaluate_refund_policy_activity, create_refund_preview_activity,
}
use customer_service_os_lite.Journey.Activities.Laws.{preview-IsCovered}
use customer_service_os_lite.Gateway.Types.{Payment, CommerceOrder, ObservationMetadata}
use customer_service_os_lite.Gateway.Context.{TextPlatform, to_refund_context, is_settled}
use customer_service_os_lite.Gateway.Context.Laws.{Covers, refundable-Covers}

-- No offer overdraws a payment: when the policy is evaluated and a preview made on the context that
-- the gateway derives from an order, the order has exactly one settled payment, and that payment
-- covers the previewed amount, which is positive, along with all of its refunds that have neither
-- failed nor been cancelled.
pub preview-Covers :
    (deps : Dependencies) (platform : TextPlatform) (order : CommerceOrder) (selection : Selection)
    (metadata : ObservationMetadata) (proposal : RefundProposal) (version : String)
    (evidence : Option AcceptedDamageEvidence) (d : RefundPolicyDecision)
    (authorization : Option RefundPreviewAuthorization) (preview : RefundPreview)
    → evaluate_refund_policy_activity deps proposal
        (to_refund_context platform order selection metadata)
        version
        evidence
      ≡ ok d
    → create_refund_preview_activity deps proposal
        (to_refund_context platform order selection metadata)
        d
        authorization
      ≡ ok preview
    → (pos 0 <ℤ preview.requested_amount.amount_minor)
      × (p : Payment) × (keep (is_settled platform) order.payments ≡ p ∷ [])
      × Covers platform p preview.requested_amount.amount_minor
preview-Covers deps platform order selection metadata proposal version evidence d authorization
      preview h k =
    let (asked, covered, matches) =
      preview-IsCovered deps proposal (to_refund_context platform order selection metadata) version
        evidence d authorization preview h k in
    let (p, only, covers) =
      refundable-Covers platform order selection metadata preview.requested_amount.amount_minor
        covered.positive covered.within in
    (covered.positive, p, only, covers)
