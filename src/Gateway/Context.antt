-- ===== src/Gateway/Context.antt =====
-- `toRefundContext` of apps/services/integration-gateway/src/refund-context.ts, and
-- `getRefundContext` of get-refund-context.ts. Amounts are exact integers.
pub mod Laws
pub mod Access
use Prim.Native.String.{◌++◌ as append_string}
use customer_service_os_lite.Common.{
  ℕ, Bool, true, false, not, ◌&&◌, Option, none, some, List, [], ◌∷◌, ◌++◌, String, str_eq,
  includes, is_none, if◌then◌else◌, arith, map,
}
use customer_service_os_lite.Common.Int.{ℤ, pos, ◌+ℤ◌, ◌-ℤ◌, ltb_ℤ}
use customer_service_os_lite.Common.Lists.{length, some_of, every, keep, find}
use customer_service_os_lite.Policy.Types.{Money}
use customer_service_os_lite.Journey.Types.{
  SelectionScope, Selection, ContextSource, ContextFacts, RefundContext,
}
use customer_service_os_lite.Gateway.Types.{
  OrderSource, Customer, Item, Refund, Payment, CommerceOrder, ObservationMetadata,
  OrderAccessContext,
}

pub record RefundFact : Type 0 where
  pub refund_id : String
  pub status : String
  pub amount : Money
  pub line_ids : List String

pub record PaymentFact : Type 0 where
  pub payment_id : String
  pub status : String
  pub amount : Money
  pub refunds : List RefundFact

-- What the digest of the facts is taken of.
pub record DigestedFacts : Type 0 where
  pub source : OrderSource
  pub selection : Selection
  pub payment : Option PaymentFact
  pub facts : ContextFacts

-- `toUpperCase`, and the SHA-256 digest in hex of the facts' JSON.
pub record TextPlatform : Type 0 where
  pub to_upper_case : String → String
  pub facts_digest : DigestedFacts → String

abbrev pub max_ℤ : ℤ → ℤ → ℤ
max_ℤ a b = if ltb_ℤ a b then b else a

abbrev pub min_ℤ : ℤ → ℤ → ℤ
min_ℤ a b = if ltb_ℤ a b then a else b

-- `list.reduce((total, x) => total + amount(x), 0)`
pub sum_by {ℓ} : {A : Type ℓ} → (A → ℤ) → List A → ℤ
sum_by amount [] = pos 0
sum_by amount (x ∷ xs) = amount x +ℤ sum_by amount xs

abbrev pub is_full : SelectionScope → Bool
is_full SelectionScope.full_order = true
is_full SelectionScope.selected_items = false

abbrev pub is_some {ℓ} : {A : Type ℓ} → Option A → Bool
is_some none = false
is_some (some x) = true

-- `settledPayments.length === 1 ? settledPayments[0] : null`
pub sole : List Payment → Option Payment
sole (p ∷ []) = some p
sole _ = none

abbrev refunds_of : Option Payment → List Refund
refunds_of none = []
refunds_of (some p) = p.refunds

abbrev pub line_total_of : Option Item → ℤ
line_total_of none = pos 0
line_total_of (some item) = item.line_total.amount_minor

module _ (platform : TextPlatform) where
  pub refund_consumes_balance : String → Bool
  refund_consumes_balance status =
      let normalized = platform.to_upper_case status in
      not (str_eq normalized "FAILED") && not (str_eq normalized "CANCELLED")

  pub is_settled : Payment → Bool
  is_settled p = str_eq (platform.to_upper_case p.status) "SETTLED"

  pub settled_payment : CommerceOrder → Option Payment
  unfolding sole is_settled
  settled_payment order = sole (keep is_settled order.payments)

  pub prior_refunds : Option Payment → List Refund
  unfolding refund_consumes_balance
  prior_refunds payment = keep (λ r. refund_consumes_balance r.status) (refunds_of payment)

  pub consumed_amount : Option Payment → ℤ
  unfolding prior_refunds sum_by
  consumed_amount payment = sum_by (λ r. r.amount.amount_minor) (prior_refunds payment)

  pub remaining_payment_amount : Option Payment → ℤ
  unfolding consumed_amount
  remaining_payment_amount none = pos 0
  remaining_payment_amount (some p) =
      max_ℤ (p.amount.amount_minor -ℤ consumed_amount (some p)) (pos 0)

  pub selected_items : CommerceOrder → Selection → List (Option Item)
  selected_items order selection =
      map (λ id. find (λ item. str_eq item.id id) order.items) selection.item_ids

  pub selected_item_total : CommerceOrder → Selection → ℤ
  unfolding selected_items sum_by
  selected_item_total order selection = sum_by line_total_of (selected_items order selection)

  pub selected_item_was_refunded : Option Payment → Selection → Bool
  unfolding refund_consumes_balance
  selected_item_was_refunded payment selection =
      some_of
        (λ r. refund_consumes_balance r.status && some_of (includes selection.item_ids) r.line_ids)
        (refunds_of payment)

  pub item_selection_valid : CommerceOrder → Selection → Option Payment → Bool
  unfolding selected_items selected_item_was_refunded
  item_selection_valid order selection payment =
      if is_full selection.scope
      then true
      else every is_some (selected_items order selection)
        && not (selected_item_was_refunded payment selection)

  pub selected_maximum : CommerceOrder → Selection → Option Payment → ℤ
  unfolding remaining_payment_amount selected_item_total
  selected_maximum order selection payment =
      if is_full selection.scope
      then remaining_payment_amount payment
      else min_ℤ (selected_item_total order selection) (remaining_payment_amount payment)

  refund_fact : Refund → RefundFact
  refund_fact r = record {
    refund_id = r.id;
    status = r.status;
    amount = r.amount;
    line_ids = r.line_ids;
  }

  payment_fact : Payment → PaymentFact
  unfolding refund_fact
  payment_fact p = record {
    payment_id = p.id;
    status = p.status;
    amount = p.amount;
    refunds = map refund_fact p.refunds;
  }

  pub context_facts : CommerceOrder → Selection → Option Payment → ContextFacts
  unfolding item_selection_valid selected_maximum prior_refunds remaining_payment_amount
  context_facts order selection payment =
      let valid = item_selection_valid order selection payment in
      record {
        transaction_refundable =
            not order.active
            && (is_some payment && ltb_ℤ (pos 0) (remaining_payment_amount payment));
        item_selection_valid = valid;
        prior_refund_count = pos (length (prior_refunds payment));
        refundable_amount = record {
          amount_minor = if valid then selected_maximum order selection payment else pos 0;
          currency = order.total.currency;
        };
      }

  unfoldable pub to_refund_context : CommerceOrder → Selection → ObservationMetadata → RefundContext
  unfolding settled_payment context_facts payment_fact
  to_refund_context order selection metadata =
      let payment = settled_payment order in
      let facts = context_facts order selection payment in
      let digest = platform.facts_digest (record {
        source = order.source;
        selection = selection;
        payment = elim payment [ none ↦ none | some p ↦ some (payment_fact p) ];
        facts = facts;
      }) in
      record {
        observation_id = metadata.observation_id;
        observed_at = metadata.observed_at;
        source = record {
          provider = order.source.provider;
          order_id = order.source.order_id;
          facts_version = append_string "sha256:" digest;
        };
        selection = selection;
        facts = facts;
      }

  -- The order is what `commerceProvider.getOrderById` gives.
  unfoldable pub get_refund_context :
      Option CommerceOrder
      → Selection
      → OrderAccessContext
      → ObservationMetadata
      → Option RefundContext
  unfolding to_refund_context
  get_refund_context none selection access metadata = none
  get_refund_context (some order) selection access metadata = elim order.customer [
    | none ↦ none
    | some customer ↦
        if str_eq customer.id access.subject_customer_id
        then some (to_refund_context order selection metadata)
        else none
  ]
