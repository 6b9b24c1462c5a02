-- ===== src/Tests/Gateway.antt =====
-- Tests of apps/services/integration-gateway/src/refund-context.ts and get-refund-context.ts.
use customer_service_os_lite.Common.{◌≡◌, refl, ◌↔◌, ok, none, some, [], ◌∷◌, true, false, str_eq}
use customer_service_os_lite.Common.Int.{pos, ◌<ℤ◌, ◌+ℤ◌, ◌-ℤ◌}
use customer_service_os_lite.Common.Lists.{keep, find, All}
use customer_service_os_lite.Policy.Canonical.{hash_policy_input}
use customer_service_os_lite.Policy.Rules.{assert_policy_release, is_invalid_release, rule_on}
use customer_service_os_lite.Policy.Evaluate.{evaluate_refund_policy}
use customer_service_os_lite.Journey.Types.{Selection, SelectionScope}
use customer_service_os_lite.Journey.Input.{policy_input, create_refund_policy_input}
use customer_service_os_lite.Journey.Preview.{create_refund_preview}
use customer_service_os_lite.Journey.Activities.{
  evaluate_refund_policy_activity, create_refund_preview_activity,
}
use customer_service_os_lite.Gateway.Types.{Customer, Item, Payment}
use customer_service_os_lite.Gateway.Context.{
  is_settled, consumed_amount, to_refund_context, get_refund_context,
}
use customer_service_os_lite.Gateway.Context.Laws.{
  Covers, RefundsSelected, transaction_refundable_iff, item_selection_valid_iff,
}
use customer_service_os_lite.Gateway.Context.Access.{get_refund_context_iff}
use customer_service_os_lite.Gateway.Covered.{preview-Covers}
use customer_service_os_lite.Tests.Fixtures.{
  euros, order, selection, metadata, access, text_platform, proposal, dependencies, context,
  decision, input, preview,
}

derived : to_refund_context text_platform order selection metadata ≡ context
unfolding to_refund_context ◌+ℤ◌ ◌-ℤ◌
derived = refl

-- An item that is selected twice counts twice.
abbrev twice : Selection
twice = record { scope = SelectionScope.selected_items; item_ids = "i-1" ∷ "i-1" ∷ [] }

counted_twice :
    (to_refund_context text_platform order twice metadata).facts.refundable_amount
    ≡ euros (pos 4000)
unfolding to_refund_context ◌+ℤ◌ ◌-ℤ◌
counted_twice = refl

evaluated :
    evaluate_refund_policy_activity dependencies proposal
      (to_refund_context text_platform order selection metadata)
      "refund-policy-v1"
      none
    ≡ ok (decision input.fact_refs)
unfolding to_refund_context evaluate_refund_policy_activity create_refund_policy_input
    evaluate_refund_policy assert_policy_release is_invalid_release hash_policy_input rule_on
    policy_input ◌+ℤ◌ ◌-ℤ◌
evaluated = refl

offered :
    create_refund_preview_activity dependencies proposal
      (to_refund_context text_platform order selection metadata)
      (decision input.fact_refs)
      none
    ≡ ok preview
unfolding to_refund_context create_refund_preview_activity create_refund_preview policy_input ◌+ℤ◌
    ◌-ℤ◌
offered = refl

preview-Covers_example :
    (pos 0 <ℤ pos 2500)
    × (p : Payment) × (keep (is_settled text_platform) order.payments ≡ p ∷ [])
    × Covers text_platform p (pos 2500)
preview-Covers_example =
    preview-Covers dependencies text_platform order selection metadata proposal "refund-policy-v1"
      none (decision input.fact_refs) none preview evaluated offered

transaction_refundable_iff_example :
    ((to_refund_context text_platform order selection metadata).facts.transaction_refundable ≡ true)
    ↔ ((order.active ≡ false)
        × (p : Payment) × (keep (is_settled text_platform) order.payments ≡ p ∷ [])
        × (consumed_amount text_platform (some p) <ℤ p.amount.amount_minor))
transaction_refundable_iff_example =
    transaction_refundable_iff text_platform order selection metadata

item_selection_valid_iff_example :
    ((to_refund_context text_platform order selection metadata).facts.item_selection_valid ≡ true)
    ↔ (All (λ id. (item : Item) × (find (λ i. str_eq i.id id) order.items ≡ some item)) ("i-1" ∷ [])
        × ¬ (
            (p : Payment) × (keep (is_settled text_platform) order.payments ≡ p ∷ [])
            × RefundsSelected text_platform selection p))
item_selection_valid_iff_example =
    item_selection_valid_iff text_platform order selection metadata refl

get_refund_context_iff_example :
    (get_refund_context text_platform (some order) selection access metadata ≡ some context) ↔ (
      ((customer : Customer) × (order.customer ≡ some customer) × (customer.id ≡ "c-1"))
      × (to_refund_context text_platform order selection metadata ≡ context))
get_refund_context_iff_example =
    get_refund_context_iff text_platform order selection access metadata context
