-- ===== src/Gateway/Context/Access.antt =====
-- Who is given the refund context of an order
-- (apps/services/integration-gateway/src/get-refund-context.ts).
use customer_service_os_lite.Common.{◌≡◌, ◌↔◌, inl, inr, Option-cases, some, str_eq_iff, arith}
use customer_service_os_lite.Journey.Types.{Selection, RefundContext}
use customer_service_os_lite.Gateway.Types.{
  Customer, CommerceOrder, ObservationMetadata, OrderAccessContext,
}
use customer_service_os_lite.Gateway.Context.{TextPlatform, to_refund_context, get_refund_context}

module _ (platform : TextPlatform) (order : CommerceOrder) (selection : Selection)
    (access : OrderAccessContext) (metadata : ObservationMetadata) where
  -- `getRefundContext` gives a context of a found order exactly when the order has a customer who is
  -- the subject of the access, and then it is the context of that order.
  pub get_refund_context_iff :
      (context : RefundContext)
      → (get_refund_context platform (some order) selection access metadata ≡ some context) ↔ (
          ((customer : Customer) × (order.customer ≡ some customer)
            × (customer.id ≡ access.subject_customer_id))
          × (to_refund_context platform order selection metadata ≡ context))
  unfolding get_refund_context
  get_refund_context_iff context = elim (Option-cases order.customer) [
    | inl absent ↦ (λ h. ground arith, λ h. ground arith)
    | inr (customer, has) ↦
        let same = str_eq_iff customer.id access.subject_customer_id in
        (
          λ h. ground arith,
          λ ((k, is, subject), made).
              let same = str_eq_iff k.id access.subject_customer_id in ground arith,
        )
  ]
