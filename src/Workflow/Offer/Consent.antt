-- ===== src/Workflow/Offer/Consent.antt =====
-- The offering phase keeps what `PointSound` says: a refund is handed on only with the customer's
-- consent to its preview, and on someone's authority.
use customer_service_os_lite.Common.{
  ℕ, Bool, true, false, ◌≡◌, refl, [], ◌∷◌, List, sym, arith, str_eq_iff,
}
use customer_service_os_lite.Common.Lists.{All, All-append}
use customer_service_os_lite.Common.Dates.{Timestamp}
use customer_service_os_lite.Policy.Types.{RefundPolicyDecision}
use customer_service_os_lite.Journey.Types.{RefundPreview}
use customer_service_os_lite.Workflow.Types.{
  RefundWorkflowRequest, RefundCustomerConfirmation, RefundWorkflowState, Config, OfferPoint, Point,
  Patches, Route, automatic, approval, exceptional,
}
use customer_service_os_lite.Workflow.History.{
  History, Occurs, CurrentAt, confirmed_by, Hears, Consent, Authority, Offered, RouteIsOpen,
  OfferSound, EarlySound, ReactionSound,
}
use customer_service_os_lite.Workflow.Settle.Consent.{execute_authorized_sound}
use customer_service_os_lite.Workflow.Offer.{
  is_refund_preview_current, Heard, hear_confirmation, hear_confirmations, withdraw, unconfirmed,
  after_confirmation, confirmed, wait_for_confirmation, signal_confirmation,
}

module _ (patches : Patches) (h : History) where
  -- What is heard is one of the confirmations, answers the preview and is in time.
  module _ (p : RefundPreview) (now : ℕ)
      (clock : (k : RefundCustomerConfirmation)
        → Occurs (confirmed_by k) h
        → is_refund_preview_current p.valid_until now ≡ true
        → CurrentAt k p.valid_until h) where
    hear-Hears :
        (k k' : RefundCustomerConfirmation)
        → hear_confirmation patches p now k ≡ Heard.heard k'
        → Occurs (confirmed_by k) h
        → Hears patches h p k'
    unfolding hear_confirmation
    hear-Hears k k' e o = ground (arith, clock k o, str_eq_iff k.preview_id p.preview_id)

    hear_all-Hears :
        (ks : List RefundCustomerConfirmation) (k' : RefundCustomerConfirmation)
        → hear_confirmations patches p now ks ≡ Heard.heard k'
        → All (λ k. Occurs (confirmed_by k) h) ks
        → Hears patches h p k'
    unfolding hear_confirmations
    hear_all-Hears [] k' e o = ground arith
    hear_all-Hears (k ∷ ks) k' e (o, os) = ground (arith, hear-Hears k k, hear_all-Hears ks k')

  module _ (request : RefundWorkflowRequest) (c : Config) (early : EarlySound patches h c) where
    withdraw_sound :
        (route : Route) (next : RefundWorkflowState)
        → ReactionSound patches h (withdraw c route next)
    unfolding withdraw
    withdraw_sound route next = ground arith

    pub unconfirmed_sound : (route : Route) → ReactionSound patches h (unconfirmed c route)
    unfolding unconfirmed
    unconfirmed_sound route = withdraw_sound route _

    -- The customer has accepted.
    accepted_sound :
        (route : Route) (d : RefundPolicyDecision) (p : RefundPreview)
        → RouteIsOpen h d route
        → Offered h p
        → Consent patches h p
        → ReactionSound patches h (after_confirmation request c route d p true)
    unfolding after_confirmation
    accepted_sound automatic d p open' offered consent =
        execute_authorized_sound patches h request c early d p
          (offered, consent, Authority.by_policy open'.0 open'.1)
    accepted_sound approval d p open' offered consent = ground arith
    accepted_sound (exceptional id) d p open' offered consent =
        execute_authorized_sound patches h request c early d p
          (offered, consent, Authority.by_exception open')

    pub after_confirmation_sound :
        (route : Route) (d : RefundPolicyDecision) (p : RefundPreview)
        (k : RefundCustomerConfirmation) (b : Bool)
        → b ≡ k.accepted
        → RouteIsOpen h d route
        → Offered h p
        → Hears patches h p k
        → ReactionSound patches h (after_confirmation request c route d p b)
    after_confirmation_sound route d p k true e open' offered heard =
        accepted_sound route d p open' offered
          (record { confirmation = k; answer = heard; accepted = sym e })
    after_confirmation_sound route d p k false e open' offered heard =
        unfold after_confirmation in withdraw_sound route _

    confirmed_sound :
        (route : Route) (d : RefundPolicyDecision) (p : RefundPreview)
        (k : RefundCustomerConfirmation)
        → RouteIsOpen h d route
        → Offered h p
        → Hears patches h p k
        → ReactionSound patches h (confirmed request patches c route d p k)
    unfolding confirmed
    confirmed_sound route d p k open' offered heard =
        ground (arith, after_confirmation_sound route d p k k.accepted refl open' offered heard)

    module _ (now : ℕ)
        (clock : (until : Timestamp) (k : RefundCustomerConfirmation)
          → Occurs (confirmed_by k) h
          → is_refund_preview_current until now ≡ true
          → CurrentAt k until h) where
      heard_sound :
          (route : Route) (d : RefundPolicyDecision) (p : RefundPreview)
          (k : RefundCustomerConfirmation)
          → RouteIsOpen h d route
          → Offered h p
          → hear_confirmations patches p now c.early_confirmations ≡ Heard.heard k
          → ReactionSound patches h (confirmed request patches c route d p k)
      heard_sound route d p k open' offered e =
          confirmed_sound route d p k open' offered
            (hear_all-Hears p now (λ k. clock p.valid_until k) c.early_confirmations k e early.0)

      pub wait_sound :
          (route : Route) (d : RefundPolicyDecision) (p : RefundPreview)
          → RouteIsOpen h d route
          → Offered h p
          → ReactionSound patches h (wait_for_confirmation request patches c now route d p)
      unfolding wait_for_confirmation
      wait_sound route d p open' offered = grind (
        arith,
        λ (k : RefundCustomerConfirmation). heard_sound route d p k open' offered,
        unconfirmed_sound route,
      )

      signalled_sound :
          (route : Route) (d : RefundPolicyDecision) (p : RefundPreview)
          (k k' : RefundCustomerConfirmation)
          → RouteIsOpen h d route
          → Offered h p
          → Occurs (confirmed_by k) h
          → hear_confirmation patches p now k ≡ Heard.heard k'
          → ReactionSound patches h (confirmed request patches c route d p k')
      signalled_sound route d p k k' open' offered o e =
          confirmed_sound route d p k' open' offered
            (hear-Hears p now (λ k. clock p.valid_until k) k k' e o)

      pub signal_confirmation_sound :
          (at : OfferPoint) (k : RefundCustomerConfirmation)
          → c.point ≡ Point.offering at
          → OfferSound patches h at
          → Occurs (confirmed_by k) h
          → ReactionSound patches h (signal_confirmation request patches c now at k)
      unfolding signal_confirmation
      signal_confirmation_sound (OfferPoint.confirming route d p) k e (open', offered) o = grind (
        arith,
        λ (k' : RefundCustomerConfirmation). signalled_sound route d p k k' open' offered o,
        unconfirmed_sound route,
      )
      signal_confirmation_sound at k e s o =
          let kept =
            All-append (λ k. Occurs (confirmed_by k) h) c.early_confirmations (k ∷ []) early.0
              (o, tt) in
          grind arith
