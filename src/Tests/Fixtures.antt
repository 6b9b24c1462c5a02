-- ===== src/Tests/Fixtures.antt =====
-- A small order, its proposal and a policy release, for the tests.
use customer_service_os_lite.Common.{none, some, true, false, List, [], ◌∷◌}
use customer_service_os_lite.Common.Int.{ℤ, pos}
use customer_service_os_lite.Common.Dates.{at}
use customer_service_os_lite.Policy.Types.{
  Money, Scope, PolicyEffect, ReasonCode, RefundPolicyInput, RefundPolicyRelease,
  PolicyDecisionContext, RefundPolicyDecision, FactRef,
}
use customer_service_os_lite.Policy.Canonical.{Platform}
use customer_service_os_lite.Journey.Types.{
  RefundProposal, SelectionScope, Selection, RefundContext, RefundPreview,
}
use customer_service_os_lite.Journey.Input.{policy_input}
use customer_service_os_lite.Journey.Activities.{Dependencies}
use customer_service_os_lite.Gateway.Types.{
  Customer, Item, Payment, CommerceOrder, ObservationMetadata, OrderAccessContext,
}
use customer_service_os_lite.Gateway.Context.{TextPlatform}

abbrev pub euros : ℤ → Money
euros n = record { amount_minor = n; currency = "EUR" }

abbrev pub payment : Payment
payment = record {
  id = "pay-1";
  status = "SETTLED";
  amount = euros (pos 5000);
  method = "card";
  transaction_reference = none;
  refunds =
      (record { id = "r-1"; status = "COMPLETED"; amount = euros (pos 1000); line_ids = [] })
      ∷ (record { id = "r-2"; status = "FAILED"; amount = euros (pos 4000); line_ids = "i-1" ∷ [] })
      ∷ [];
}

abbrev pub item : Item
item = record {
  id = "i-1";
  sku = "sku";
  name = "cup";
  quantity = pos 1;
  unit_price = euros (pos 2500);
  line_total = euros (pos 2500);
}

abbrev pub customer : Customer
customer = record { id = "c-1"; name = "Ada"; email = "ada@example.org" }

abbrev pub order : CommerceOrder
order = record {
  source = record { provider = "shop"; order_id = "o-1" };
  reference = "A-1";
  status = "DELIVERED";
  active = false;
  placed_at = none;
  customer = some customer;
  total = euros (pos 5000);
  items = item ∷ [];
  payments = payment ∷ [];
  fulfillments = [];
}

abbrev pub selection : Selection
selection = record { scope = SelectionScope.selected_items; item_ids = "i-1" ∷ [] }

abbrev pub metadata : ObservationMetadata
metadata = record { observation_id = "obs-1"; observed_at = at 1000 }

abbrev pub access : OrderAccessContext
access = record { subject_customer_id = "c-1" }

-- The texts of the fixtures are in upper case, and the digest is constant.
abbrev pub text_platform : TextPlatform
text_platform = record { to_upper_case = λ s. s; facts_digest = λ f. "d1" }

abbrev pub platform : Platform
platform = record { sha256_hex = λ bytes. "d2"; iso_text = λ t. "1970-01-01T00:00:01.000Z" }

abbrev pub proposal : RefundProposal
proposal = record {
  proposal_id = "p-1";
  intent = record {
    order_id = "o-1";
    reason_code = "CHANGED_MIND";
    scope = Scope.selected_items;
    item_ids = "i-1" ∷ [];
    requested_amount = some (euros (pos 2500));
  };
}

abbrev pub release : RefundPolicyRelease
release = record {
  policy_version = "refund-policy-v1";
  supported_currency = "EUR";
  automatic_maximum_minor = pos 3000;
  approval_maximum_minor = pos 9000;
  elevated_risk_prior_refund_count = pos 2;
  high_risk_prior_refund_count = pos 4;
  decision_validity_seconds = pos 900;
  permitted_reason_codes = "CHANGED_MIND" ∷ [];
  require_damage_photo = false;
}

abbrev pub decision_context : PolicyDecisionContext
decision_context = record { decision_id = "d-1"; decided_at = at 2000 }

abbrev pub dependencies : Dependencies
dependencies = record {
  get_policy_release = none;
  refund_policy_release = release;
  decision_context = decision_context;
  preview_context = record { preview_id = "v-1"; created_at = at 3000 };
  platform = platform;
}

-- The context that the gateway derives from the order.
abbrev pub context : RefundContext
context = record {
  observation_id = "obs-1";
  observed_at = at 1000;
  source = record { provider = "shop"; order_id = "o-1"; facts_version = "sha256:d1" };
  selection = selection;
  facts = record {
    transaction_refundable = true;
    item_selection_valid = true;
    prior_refund_count = pos 1;
    refundable_amount = euros (pos 2500);
  };
}

abbrev pub input : RefundPolicyInput
input = policy_input proposal context "refund-policy-v1" none

abbrev pub decision : List FactRef → RefundPolicyDecision
decision fact_refs = record {
  decision_id = "d-1";
  effect = PolicyEffect.allow;
  policy_version = "refund-policy-v1";
  input_facts_hash = "sha256:d2";
  fact_refs = fact_refs;
  reason_codes = ReasonCode.within_automatic_refund_threshold ∷ [];
  obligations = [];
  missing_facts = [];
  decided_at = at 2000;
  valid_until = at 902000;
}

abbrev pub preview : RefundPreview
preview = record {
  preview_id = "v-1";
  created_at = at 3000;
  proposal_id = "p-1";
  order_id = "o-1";
  selection = selection;
  requested_amount = euros (pos 2500);
  policy_version = "refund-policy-v1";
  decision_id = "d-1";
  input_facts_hash = "sha256:d2";
  valid_until = at 902000;
}

-- A proposal for more than the refundable balance, and the denial.
abbrev pub greedy : RefundProposal
greedy = record proposal {
  intent = record (proposal.intent) { requested_amount = some (euros (pos 2600)) };
}

abbrev pub greedy_input : RefundPolicyInput
greedy_input = policy_input greedy context "refund-policy-v1" none

abbrev pub denial_of : List FactRef → RefundPolicyDecision
denial_of fact_refs = record (decision fact_refs) {
  effect = PolicyEffect.deny;
  reason_codes = ReasonCode.refund_amount_exceeds_refundable_balance ∷ [];
}
