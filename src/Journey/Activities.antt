-- ===== src/Journey/Activities.antt =====
-- The activities of apps/services/workflow-workers/src/refund-workflow-activities.ts that decide:
-- the evaluation of the policy and the preview. The others call services of other hosts.
pub mod Laws
use customer_service_os_lite.Common.{Option, none, some, String, Result, ok, err, ◌>>=◌}
use customer_service_os_lite.Policy.Types.{
  RefundPolicyInput, RefundPolicyRelease, PolicyDecisionContext, RefundPolicyDecision, PolicyError,
}
use customer_service_os_lite.Policy.Canonical.{Platform}
use customer_service_os_lite.Policy.Evaluate.{evaluate_refund_policy}
use customer_service_os_lite.Journey.Types.{
  RefundProposal, RefundContext, AcceptedDamageEvidence, RefundPreview, RefundPreviewAuthorization,
}
use customer_service_os_lite.Journey.Input.{InputError, create_refund_policy_input}
use customer_service_os_lite.Journey.Preview.{PreviewError, PreviewContext, create_refund_preview}

pub data ActivityError : Type 0 where
  input : InputError → ActivityError
  policy : PolicyError → ActivityError
  preview : PreviewError → ActivityError

abbrev rethrow : {E A : Type 0} → (E → ActivityError) → Result E A → Result ActivityError A
rethrow f (ok a) = ok a
rethrow f (err e) = err (f e)

-- The dependencies that the decisions use: the release of a version and the fallback release
-- (`getPolicyRelease?.(version) ?? refundPolicyRelease`), and the two contexts.
pub record Dependencies : Type 0 where
  pub get_policy_release : Option (String → RefundPolicyRelease)
  pub refund_policy_release : RefundPolicyRelease
  pub decision_context : PolicyDecisionContext
  pub preview_context : PreviewContext
  pub platform : Platform

pub release_for : Dependencies → String → RefundPolicyRelease
release_for deps version = elim deps.get_policy_release [
  | none ↦ deps.refund_policy_release
  | some get ↦ get version
]

module _ (deps : Dependencies) where
  unfoldable pub evaluate_refund_policy_activity :
      RefundProposal
      → RefundContext
      → String
      → Option AcceptedDamageEvidence
      → Result ActivityError RefundPolicyDecision
  unfolding release_for
  evaluate_refund_policy_activity proposal context policy_version damage_evidence =
      rethrow ActivityError.input
        (create_refund_policy_input proposal context policy_version damage_evidence)
      >>= λ made. rethrow ActivityError.policy (
          evaluate_refund_policy deps.platform made (release_for deps policy_version)
            deps.decision_context)

  unfoldable pub create_refund_preview_activity :
      RefundProposal
      → RefundContext
      → RefundPolicyDecision
      → Option RefundPreviewAuthorization
      → Result ActivityError RefundPreview
  create_refund_preview_activity proposal context decision authorization =
      rethrow ActivityError.preview
        (create_refund_preview proposal context decision authorization deps.preview_context)
