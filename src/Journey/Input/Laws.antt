-- ===== src/Journey/Input/Laws.antt =====
-- What a policy input (refund-policy-input.ts) takes from where.
use mathlib.Core.List.{Perm}
use mathlib.Core.List.Perm
use customer_service_os_lite.Common.{
  true, ◌≡◌, refl, sym, ◌∙◌, Option, List, [], ◌∷◌, String, str_eq_iff, ok, arith,
}
use customer_service_os_lite.Common.Lists.{length}
use customer_service_os_lite.Common.Sort.{leb_string, sort_by}
use customer_service_os_lite.Common.Sort.Laws.{sort_by-perm, length-sort_by}
use customer_service_os_lite.Policy.Types.{RefundPolicyInput}
use customer_service_os_lite.Journey.Types.{RefundProposal, RefundContext, AcceptedDamageEvidence}
use customer_service_os_lite.Journey.Input.{
  every_same, same_item_ids, same_scope, policy_input, create_refund_policy_input,
}

every_same-eq : (xs ys : List String) → length xs ≡ length ys → every_same xs ys ≡ true → xs ≡ ys
unfolding every_same
every_same-eq [] [] n h = refl
every_same-eq [] (y ∷ ys) n h = ground arith
every_same-eq (x ∷ xs) [] n h = cc
every_same-eq (x ∷ xs) (y ∷ ys) n h = ground (arith, str_eq_iff x y, every_same-eq xs ys)

-- Two lists of item ids that the code takes for the same hold the same ids, as often.
pub same_item_ids-perm :
    (left right : List String) → same_item_ids left right ≡ true → Perm left right
unfolding same_item_ids
same_item_ids-perm left right h =
    let lengths : length left ≡ length right = ground arith in
    let compared : every_same (sort_by leb_string left) (sort_by leb_string right) ≡ true =
      ground arith in
    let sorted : sort_by leb_string left ≡ sort_by leb_string right =
      every_same-eq _ _
        (length-sort_by leb_string left ∙ lengths ∙ sym (length-sort_by leb_string right))
        compared in
    Perm.trans (Perm.symm (sort_by-perm leb_string left))
      (rw sorted (sort_by-perm leb_string right))

module _ (proposal : RefundProposal) (context : RefundContext) where
  -- A policy input is made only for a context of the proposal's order, with the proposal's
  -- selection, and then is the object that the code builds from the two.
  pub record Matches : Type 0 where
    pub order : proposal.intent.order_id ≡ context.source.order_id
    pub scope : same_scope proposal.intent.scope context.selection.scope ≡ true
    pub items : Perm proposal.intent.item_ids context.selection.item_ids

  pub create-Matches :
      (policy_version : String) (evidence : Option AcceptedDamageEvidence)
      (input : RefundPolicyInput)
      → create_refund_policy_input proposal context policy_version evidence ≡ ok input
      → Matches × (input ≡ policy_input proposal context policy_version evidence)
  unfolding create_refund_policy_input
  create-Matches policy_version evidence input h = (
    record {
      order = (str_eq_iff _ _).0 (ground arith);
      scope = ground arith;
      items = same_item_ids-perm _ _ (ground arith);
    },
    ground arith,
  )
