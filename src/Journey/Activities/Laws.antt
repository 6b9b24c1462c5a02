-- ===== src/Journey/Activities/Laws.antt =====
-- The evaluation and the preview together (refund-workflow-activities.ts): what a customer is
-- offered.
use customer_service_os_lite.Common.{
  true, false, ◌≡◌, refl, ◌≢◌, ◌⊎◌, Option, some, String, str_eq_iff, Result, ok, err, >>=-eq-ok,
  arith, Bool,
}
use customer_service_os_lite.Common.Int.{pos, ◌≤ℤ◌, ◌<ℤ◌}
use customer_service_os_lite.Policy.Types.{
  Money, PolicyEffect, allow, approval_required, takeover_required, RefundPolicyInput,
  RefundPolicyDecision,
}
use customer_service_os_lite.Policy.Evaluate.{evaluate_refund_policy}
use customer_service_os_lite.Policy.Evaluate.Laws.{evaluate-Offers}
use customer_service_os_lite.Policy.Rules.Outcome.{Offers}
use customer_service_os_lite.Journey.Types.{
  RefundProposal, RefundContext, AcceptedDamageEvidence, RefundPreview, RefundPreviewAuthorization,
}
use customer_service_os_lite.Journey.Input.{create_refund_policy_input, policy_input}
use customer_service_os_lite.Journey.Input.Laws.{Matches, create-Matches}
use customer_service_os_lite.Journey.Preview.{names_case, create_refund_preview-IsBacked}
use customer_service_os_lite.Journey.Activities.{
  ActivityError, rethrow, Dependencies, release_for, evaluate_refund_policy_activity,
  create_refund_preview_activity,
}

rethrow-eq-ok :
    {E A : Type 0} (f : E → ActivityError) (r : Result E A) (a : A) → rethrow f r ≡ ok a → r ≡ ok a
rethrow-eq-ok f (ok b) a h = cc h
rethrow-eq-ok f (err e) a h = cc

refundable_effect :
    (effect : PolicyEffect) (t : Bool)
    → (effect ≡ allow)
      ⊎ ((effect ≡ approval_required) ⊎ ((effect ≡ takeover_required) × (t ≡ true)))
    → (effect ≢ PolicyEffect.deny) × (effect ≢ PolicyEffect.needs_facts)
refundable_effect effect t h = (λ e. ground arith, λ e. ground arith)

-- What an offered amount satisfies against the facts of the context.
pub record IsCovered (context : RefundContext) (amount : Money) : Type 0 where
  pub positive : pos 0 <ℤ amount.amount_minor
  pub within : amount.amount_minor ≤ℤ context.facts.refundable_amount.amount_minor
  pub currency : amount.currency ≡ context.facts.refundable_amount.currency
  pub transaction : context.facts.transaction_refundable ≡ true
  pub selection : context.facts.item_selection_valid ≡ true

true_of_known : (b : Bool) → some b ≢ some false → b ≡ true
true_of_known true h = refl
true_of_known false h = absurd (h refl)

module _ (deps : Dependencies) (proposal : RefundProposal) (context : RefundContext)
    (version : String) (evidence : Option AcceptedDamageEvidence) where
  evaluate_activity-parts :
      (d : RefundPolicyDecision)
      → evaluate_refund_policy_activity deps proposal context version evidence ≡ ok d
      → (input : RefundPolicyInput) × (create_refund_policy_input proposal context version evidence
          ≡ ok input)
        × (evaluate_refund_policy deps.platform input
              (release_for deps version)
              deps.decision_context
            ≡ ok d)
  unfolding evaluate_refund_policy_activity
  evaluate_activity-parts d h =
      let (input, made, evaluated) =
        >>=-eq-ok
          (rethrow ActivityError.input
            (create_refund_policy_input proposal context version evidence))
          (λ made. rethrow ActivityError.policy (
            evaluate_refund_policy deps.platform made (release_for deps version)
              deps.decision_context))
          {c = d} h in
      (input, rethrow-eq-ok _ _ input made, rethrow-eq-ok _ _ d evaluated)

  Offers-IsCovered :
      (amount : Money)
      → proposal.intent.requested_amount ≡ some amount
      → Offers (policy_input proposal context version evidence) (release_for deps version)
      → IsCovered context amount
  unfolding policy_input
  Offers-IsCovered amount asked o =
      let same : o.requested ≡ amount = cc (o.asked, asked) in
      let known : o.refundable ≡ context.facts.refundable_amount = cc o.available in
      let positive : pos 0 <ℤ o.requested.amount_minor = o.positive in
      let within : o.requested.amount_minor ≤ℤ o.refundable.amount_minor = o.unopposed.covered in
      let currency : o.requested.currency ≡ o.refundable.currency =
        (str_eq_iff o.requested.currency o.refundable.currency).0 o.unopposed.currency in
      record {
        positive = rw same at positive;
        within = rw (same, known) at within;
        currency = rw (same, known) at currency;
        transaction = true_of_known context.facts.transaction_refundable o.unopposed.transaction;
        selection = true_of_known context.facts.item_selection_valid o.unopposed.selection;
      }

  -- Whatever a customer is offered: when the policy evaluation gives a decision and a preview is
  -- made from it, with or without an exceptional approval, the offered amount is the proposal's
  -- amount, it is positive and within the refundable balance of the context that was evaluated, in
  -- its currency, the transaction is refundable and the selection valid, and context and proposal
  -- are about one order with the same selected items.
  pub preview-IsCovered :
      (d : RefundPolicyDecision) (authorization : Option RefundPreviewAuthorization)
      (preview : RefundPreview)
      → evaluate_refund_policy_activity deps proposal context version evidence ≡ ok d
      → create_refund_preview_activity deps proposal context d authorization ≡ ok preview
      → (proposal.intent.requested_amount ≡ some preview.requested_amount)
        × IsCovered context preview.requested_amount
        × Matches proposal context
  unfolding create_refund_preview_activity
  preview-IsCovered d authorization preview h k =
      let (input, made, evaluated) = evaluate_activity-parts d h in
      let (matches, same) = create-Matches proposal context version evidence input made in
      let backed =
        create_refund_preview-IsBacked proposal context d authorization deps.preview_context preview
          (rethrow-eq-ok _ _ preview k) in
      let (no_deny, no_facts) =
        refundable_effect d.effect (names_case authorization) backed.effect in
      let offers =
        evaluate-Offers deps.platform input (release_for deps version) deps.decision_context d
          evaluated no_deny no_facts in
      (
        backed.amount,
        Offers-IsCovered preview.requested_amount backed.amount (rw same at offers),
        matches,
      )
