-- ===== src/Journey/Input.antt =====
-- `createRefundPolicyInput` of apps/services/workflow-workers/src/refund-policy-input.ts.
pub mod Laws
use customer_service_os_lite.Common.{
  Bool, true, false, not, ◌&&◌, ◌||◌, Option, none, some, List, [], ◌∷◌, String, str_eq, ◌==◌,
  if◌then◌else◌, Result, ok, ◌>>=◌, ◌>>◌, throw_if,
}
use customer_service_os_lite.Common.Lists.{length}
use customer_service_os_lite.Common.Sort.{leb_string, sort_by}
use customer_service_os_lite.Policy.Types.{
  Scope, FactRef, RefundPolicyInput, original_payment_method,
}
use customer_service_os_lite.Journey.Types.{
  RefundProposal, SelectionScope, RefundContext, AcceptedDamageEvidence,
}

pub data InputError : Type 0 where
  refund_context_order_mismatch refund_context_selection_mismatch : InputError

-- `proposal.intent.scope === refundContext.selection.scope`
pub same_scope : Scope → SelectionScope → Bool
same_scope Scope.full_order SelectionScope.full_order = true
same_scope Scope.selected_items SelectionScope.selected_items = true
same_scope _ _ = false

-- `left.every((itemId, index) => itemId === right[index])`
pub every_same : List String → List String → Bool
every_same [] ys = true
every_same (x ∷ xs) [] = false
every_same (x ∷ xs) (y ∷ ys) = str_eq x y && every_same xs ys

unfoldable pub same_item_ids : List String → List String → Bool
unfolding every_same sort_by leb_string
same_item_ids left right =
    if not (length left == length right)
    then false
    else every_same (sort_by leb_string left) (sort_by leb_string right)

pub assert_matching_order : RefundProposal → RefundContext → Result InputError (Unit {0})
assert_matching_order proposal context =
    throw_if (not (str_eq proposal.intent.order_id context.source.order_id))
      InputError.refund_context_order_mismatch

pub assert_matching_selection : RefundProposal → RefundContext → Result InputError (Unit {0})
unfolding same_scope same_item_ids
assert_matching_selection proposal context =
    throw_if
      (not (same_scope proposal.intent.scope context.selection.scope)
        || not (same_item_ids proposal.intent.item_ids context.selection.item_ids))
      InputError.refund_context_selection_mismatch

pub evidence_refs : Option AcceptedDamageEvidence → List FactRef
evidence_refs none = []
evidence_refs (some e) =
    record {
      fact_id = e.assessment_id;
      fact_type = "ACCEPTED_DAMAGE_EVIDENCE";
      source_version = e.manifest_hash;
      observed_at = e.observed_at;
    }
    ∷ []

-- The object that is returned behind the two assertions.
unfoldable pub policy_input :
    RefundProposal → RefundContext → String → Option AcceptedDamageEvidence → RefundPolicyInput
unfolding evidence_refs
policy_input proposal context policy_version damage_evidence = record {
  policy_version = policy_version;
  request = record {
    proposal_id = proposal.proposal_id;
    order_id = proposal.intent.order_id;
    reason_code = proposal.intent.reason_code;
    scope = proposal.intent.scope;
    item_ids = proposal.intent.item_ids;
    requested_amount = proposal.intent.requested_amount;
  };
  facts = record {
    customer_verified = some true;
    transaction_refundable = some context.facts.transaction_refundable;
    item_selection_valid = some context.facts.item_selection_valid;
    prior_refund_count = some context.facts.prior_refund_count;
    refundable_amount = some context.facts.refundable_amount;
    refund_destination = some original_payment_method;
  };
  fact_refs =
      record {
        fact_id = context.observation_id;
        fact_type = "REFUND_CONTEXT";
        source_version = context.source.facts_version;
        observed_at = context.observed_at;
      }
      ∷ evidence_refs damage_evidence;
}

unfoldable pub create_refund_policy_input :
    RefundProposal
    → RefundContext
    → String
    → Option AcceptedDamageEvidence
    → Result InputError RefundPolicyInput
unfolding assert_matching_order assert_matching_selection policy_input
create_refund_policy_input proposal context policy_version damage_evidence = do
  assert_matching_order proposal context
  assert_matching_selection proposal context
  ok (policy_input proposal context policy_version damage_evidence)
