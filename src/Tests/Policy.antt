-- ===== src/Tests/Policy.antt =====
-- Tests of apps/services/workflow-workers/src/refund-policy.ts and of the input and the preview.
use mathlib.Core.List.{Perm}
use customer_service_os_lite.Common.{
  ℕ, ◌+◌, ◌*◌, ◌<◌, ◌≡◌, refl, ◌↔◌, ok, none, some, [], ◌∷◌, true, String,
}
use customer_service_os_lite.Common.Int.{pos, pos_part}
use customer_service_os_lite.Common.Dates.{at, date_parse}
use customer_service_os_lite.Policy.Types.{Money, PolicyEffect}
use customer_service_os_lite.Policy.Canonical.{hash_policy_input}
use customer_service_os_lite.Policy.Rules.{assert_policy_release, is_invalid_release, rule_on}
use customer_service_os_lite.Policy.Rules.Pieces.{IsComplete, IsUnopposed}
use customer_service_os_lite.Policy.Rules.Outcome.{Grants}
use customer_service_os_lite.Policy.Evaluate.{evaluate_refund_policy}
use customer_service_os_lite.Policy.Evaluate.Laws.{
  evaluate-allow_iff, evaluate-deny_iff, evaluate_validity,
}
use customer_service_os_lite.Journey.Input.{policy_input, same_item_ids, create_refund_policy_input}
use customer_service_os_lite.Journey.Input.Laws.{same_item_ids-perm, Matches}
use customer_service_os_lite.Journey.Preview.{create_refund_preview}
use customer_service_os_lite.Journey.Activities.{
  evaluate_refund_policy_activity, create_refund_preview_activity,
}
use customer_service_os_lite.Journey.Activities.Laws.{IsCovered, preview-IsCovered}
use customer_service_os_lite.Tests.Fixtures.{
  platform, proposal, release, decision_context, dependencies, context, decision, input, preview,
  greedy_input, denial_of,
}

allowed :
    evaluate_refund_policy platform input release decision_context ≡ ok (decision input.fact_refs)
unfolding evaluate_refund_policy assert_policy_release is_invalid_release hash_policy_input rule_on
    policy_input
allowed = refl

refused :
    evaluate_refund_policy platform greedy_input release decision_context
    ≡ ok (denial_of greedy_input.fact_refs)
unfolding evaluate_refund_policy assert_policy_release is_invalid_release hash_policy_input rule_on
    policy_input
refused = refl

evaluated :
    evaluate_refund_policy_activity dependencies proposal context "refund-policy-v1" none
    ≡ ok (decision input.fact_refs)
unfolding evaluate_refund_policy_activity create_refund_policy_input evaluate_refund_policy
    assert_policy_release is_invalid_release hash_policy_input rule_on policy_input
evaluated = refl

offered :
    create_refund_preview_activity dependencies proposal context (decision input.fact_refs) none
    ≡ ok preview
unfolding create_refund_preview_activity create_refund_preview policy_input
offered = refl

evaluate-allow_iff_example : (PolicyEffect.allow ≡ PolicyEffect.allow) ↔ Grants input release
evaluate-allow_iff_example =
    evaluate-allow_iff platform input release decision_context (decision input.fact_refs) allowed

evaluate-deny_iff_example : (PolicyEffect.deny ≡ PolicyEffect.deny) ↔ (
    IsComplete greedy_input
    × ((requested : Money) × (refundable : Money) × (greedy_input.request.requested_amount
          ≡ some requested)
        × (greedy_input.facts.refundable_amount ≡ some refundable)
        × ¬ IsUnopposed greedy_input release requested refundable))
evaluate-deny_iff_example =
    evaluate-deny_iff platform greedy_input release decision_context
      (denial_of greedy_input.fact_refs) refused

evaluate_validity_example :
    ((decision []).policy_version ≡ release.policy_version)
    × ((decision []).policy_version ≡ input.policy_version)
    × ((ms : ℕ) × (date_parse (at 2000) ≡ some ms)
        × (at 902000 ≡ at (ms + pos_part (pos 900) * 1000))
        × (ms < ms + pos_part (pos 900) * 1000))
evaluate_validity_example =
    evaluate_validity platform input release decision_context (decision input.fact_refs) allowed

preview-IsCovered_example :
    (proposal.intent.requested_amount ≡ some preview.requested_amount)
    × IsCovered context preview.requested_amount
    × Matches proposal context
preview-IsCovered_example =
    preview-IsCovered dependencies proposal context "refund-policy-v1" none
      (decision input.fact_refs) none preview evaluated offered

same_items : same_item_ids ("b" ∷ "a" ∷ []) ("a" ∷ "b" ∷ []) ≡ true
unfolding same_item_ids
same_items = refl

same_item_ids-perm_example : Perm {A = String} ("b" ∷ "a" ∷ []) ("a" ∷ "b" ∷ [])
same_item_ids-perm_example = same_item_ids-perm ("b" ∷ "a" ∷ []) ("a" ∷ "b" ∷ []) same_items
