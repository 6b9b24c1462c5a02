-- ===== src/Journey/Preview.antt =====
-- `createRefundPreview` of apps/services/workflow-workers/src/refund-preview.ts.
use customer_service_os_lite.Common.{
  Bool, true, false, not, ◌&&◌, ◌≡◌, ◌⊎◌, Option, none, some, String, str_eq, str_eq_iff, Result,
  ok, err, ◌>>◌, throw_if, arith,
}
use customer_service_os_lite.Common.Dates.{Timestamp}
use customer_service_os_lite.Policy.Types.{
  Money, PolicyEffect, allow, approval_required, takeover_required, RefundPolicyDecision,
}
use customer_service_os_lite.Journey.Types.{
  RefundProposal, RefundContext, RefundPreview, RefundPreviewAuthorization,
}

pub data PreviewError : Type 0 where
  refund_preview_requires_allowed_decision refund_preview_order_mismatch : PreviewError

pub record PreviewContext : Type 0 where
  pub preview_id : String
  pub created_at : Timestamp

pub policy_allows_preview : PolicyEffect → Bool
policy_allows_preview allow = true
policy_allows_preview approval_required = true
policy_allows_preview _ = false

pub is_takeover : PolicyEffect → Bool
is_takeover takeover_required = true
is_takeover _ = false

-- `authorization.caseId.length > 0`, where there is an authorization
pub names_case : Option RefundPreviewAuthorization → Bool
names_case none = false
names_case (some a) = not (str_eq a.case_id "")

pub exceptional_approval_allows_preview : PolicyEffect → Option RefundPreviewAuthorization → Bool
unfolding is_takeover names_case
exceptional_approval_allows_preview effect authorization =
    is_takeover effect && names_case authorization

abbrev offer :
    RefundProposal → RefundContext → RefundPolicyDecision → PreviewContext → Money → RefundPreview
offer proposal context decision made amount = record {
  preview_id = made.preview_id;
  created_at = made.created_at;
  proposal_id = proposal.proposal_id;
  order_id = proposal.intent.order_id;
  selection = context.selection;
  requested_amount = amount;
  policy_version = decision.policy_version;
  decision_id = decision.decision_id;
  input_facts_hash = decision.input_facts_hash;
  valid_until = decision.valid_until;
}

unfoldable pub create_refund_preview :
    RefundProposal
    → RefundContext
    → RefundPolicyDecision
    → Option RefundPreviewAuthorization
    → PreviewContext
    → Result PreviewError RefundPreview
unfolding policy_allows_preview exceptional_approval_allows_preview
create_refund_preview proposal context decision authorization made =
    elim proposal.intent.requested_amount [
      | none ↦ err PreviewError.refund_preview_requires_allowed_decision
      | some amount ↦ do
        throw_if
            (not (policy_allows_preview decision.effect)
              && not (exceptional_approval_allows_preview decision.effect authorization))
            PreviewError.refund_preview_requires_allowed_decision
        throw_if (not (str_eq proposal.intent.order_id context.source.order_id))
            PreviewError.refund_preview_order_mismatch
        ok (offer proposal context decision made amount)
    ]

-- What a preview rests on.
pub record IsBacked (proposal : RefundProposal) (context : RefundContext)
    (decision : RefundPolicyDecision) (authorization : Option RefundPreviewAuthorization)
    (preview : RefundPreview) : Type 0 where
  pub amount : proposal.intent.requested_amount ≡ some preview.requested_amount
  pub order : preview.order_id ≡ context.source.order_id
  pub until : preview.valid_until ≡ decision.valid_until
  pub decision_id : preview.decision_id ≡ decision.decision_id
  pub effect :
      (decision.effect ≡ allow)
      ⊎ ((decision.effect ≡ approval_required)
          ⊎ ((decision.effect ≡ takeover_required) × (names_case authorization ≡ true)))

pub create_refund_preview-IsBacked :
    (proposal : RefundProposal) (context : RefundContext) (decision : RefundPolicyDecision)
    (authorization : Option RefundPreviewAuthorization) (made : PreviewContext)
    (preview : RefundPreview)
    → create_refund_preview proposal context decision authorization made ≡ ok preview
    → IsBacked proposal context decision authorization preview
unfolding create_refund_preview
create_refund_preview-IsBacked proposal context decision authorization made preview h =
    ground (arith, str_eq_iff proposal.intent.order_id context.source.order_id)
