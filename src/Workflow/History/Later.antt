-- ===== src/Workflow/History/Later.antt =====
-- What a history of the refund workflow supports, a longer one supports.
use customer_service_os_lite.Common.{ℕ, inl, inr, [], ◌∷◌, List}
use customer_service_os_lite.Common.Lists.{All}
use customer_service_os_lite.Policy.Types.{RefundPolicyDecision}
use customer_service_os_lite.Journey.Types.{RefundPreview}
use customer_service_os_lite.Workflow.Types.{
  RefundCustomerConfirmation, RefundHumanDecision, HumanAction, Command, Event, Route, automatic,
  approval, exceptional, IntakePoint, OfferPoint, SettlePoint, Point, Config, Patches,
}
use customer_service_os_lite.Workflow.History.{
  History, Occurs, CurrentAt, confirmed_by, decided_by, Hears, Consent, Decided, Authority,
  Justified, RouteIsOpen, OfferSound, IsReady, PointSound, EarlySound, CommandSound,
}

module _ (patches : Patches) (x : ℕ × Event) (h : History) where
  hears-later :
      (p : RefundPreview) (k : RefundCustomerConfirmation)
      → Hears patches h p k
      → Hears patches (x ∷ h) p k
  hears-later p k s = record {
    signalled = Occurs.later (s.signalled);
    matching = s.matching;
    timely = elim s.timely [ inl off ↦ inl off | inr t ↦ inr (CurrentAt.later t) ];
  }

  Consent-later : (p : RefundPreview) → Consent patches h p → Consent patches (x ∷ h) p
  Consent-later p s = record {
    confirmation = s.confirmation;
    answer = hears-later p s.confirmation s.answer;
    accepted = s.accepted;
  }

  Decided-later : (a : HumanAction) → Decided h a → Decided (x ∷ h) a
  Decided-later a s = record {
    decision = s.decision;
    signalled = Occurs.later (s.signalled);
    chosen = s.chosen;
  }

  Authority-later : (d : RefundPolicyDecision) → Authority h d → Authority (x ∷ h) d
  Authority-later d (Authority.by_policy o e) = Authority.by_policy (Occurs.later o) e
  Authority-later d (Authority.by_approval s) = Authority.by_approval (Decided-later _ s)
  Authority-later d (Authority.by_exception s) = Authority.by_exception (Decided-later _ s)

  Justified-later : (p : RefundPreview) → Justified patches h p → Justified patches (x ∷ h) p
  Justified-later p s = record {
    offered = Occurs.later (s.offered);
    consent = Consent-later p s.consent;
    decision = s.decision;
    authority = Authority-later s.decision s.authority;
    facts = s.facts;
    refreshed = Occurs.later (s.refreshed);
    available = s.available;
  }

  route-later :
      (d : RefundPolicyDecision) (route : Route)
      → RouteIsOpen h d route
      → RouteIsOpen (x ∷ h) d route
  route-later d automatic (o, e) = (Occurs.later o, e)
  route-later d approval s = s
  route-later d (exceptional id) s = Decided-later _ s

  offer-later : (at : OfferPoint) → OfferSound patches h at → OfferSound patches (x ∷ h) at
  offer-later (OfferPoint.previewing route d) s = route-later d route s
  offer-later (OfferPoint.confirming route d p) (open', o) =
      (route-later d route open', Occurs.later o)
  offer-later (OfferPoint.observing route d p k) (open', o, heard) =
      (route-later d route open', Occurs.later o, hears-later p k heard)
  offer-later (OfferPoint.withdrawing next) s = tt
  offer-later (OfferPoint.opening_approval d p) (o, s) = (Occurs.later o, Consent-later p s)
  offer-later (OfferPoint.awaiting_approval d p id) (o, s) = (Occurs.later o, Consent-later p s)
  offer-later (OfferPoint.closing_approval d p k) (o, s, o', t) =
      (Occurs.later o, Consent-later p s, Occurs.later o', t)
  offer-later (OfferPoint.opening_takeover d) s = tt
  offer-later (OfferPoint.awaiting_takeover d id) s = tt
  offer-later (OfferPoint.closing_takeover d id k) o = Occurs.later o
  offer-later (OfferPoint.refreshing_exception d id) s = Decided-later _ s
  offer-later (OfferPoint.rereading_exception d id context a) s = Decided-later _ s
  offer-later (OfferPoint.redeciding_exception id context) s = Decided-later _ s

  IsReady-later :
      (d : RefundPolicyDecision) (p : RefundPreview)
      → IsReady patches h d p
      → IsReady patches (x ∷ h) d p
  IsReady-later d p (o, s, authority) =
      (Occurs.later o, Consent-later p s, Authority-later d authority)

  pub point-later : (at : Point) → PointSound patches h at → PointSound patches (x ∷ h) at
  point-later (Point.offering at) s = offer-later at s
  point-later (Point.settling (SettlePoint.checking_evidence d p)) s = IsReady-later d p s
  point-later (Point.settling (SettlePoint.rechecking_context d p)) s = IsReady-later d p s
  point-later (Point.settling (SettlePoint.executing d p)) s = tt
  point-later (Point.settling (SettlePoint.reconciling_outcome d p provider)) s = tt
  point-later (Point.settling (SettlePoint.awaiting_outcome d p provider)) s = tt
  point-later (Point.settling (SettlePoint.reconciling_pending d p n)) s = tt
  point-later (Point.settling (SettlePoint.sleeping_pending d p n)) s = tt
  point-later (Point.intake (IntakePoint.completing e context d)) o = Occurs.later o
  point-later (Point.intake IntakePoint.reading_context) s = tt
  point-later (Point.intake (IntakePoint.evaluating context)) s = tt
  point-later (Point.intake (IntakePoint.opening_evidence context d)) s = tt
  point-later (Point.intake (IntakePoint.sleeping d deadline polls)) s = tt
  point-later (Point.intake (IntakePoint.reading_evidence d deadline polls)) s = tt
  point-later (Point.intake (IntakePoint.expiring d)) s = tt
  point-later (Point.intake (IntakePoint.refreshing e)) s = tt
  point-later (Point.intake (IntakePoint.reevaluating e context)) s = tt
  point-later (Point.finished state) s = tt
  point-later (Point.continued request) s = tt
  point-later Point.thrown s = tt

  confirmations-later :
      (ks : List RefundCustomerConfirmation)
      → All (λ k. Occurs (confirmed_by k) h) ks
      → All (λ k. Occurs (confirmed_by k) (x ∷ h)) ks
  confirmations-later [] s = tt
  confirmations-later (k ∷ ks) (o, s) = (Occurs.later o, confirmations-later ks s)

  decisions-later :
      (ks : List RefundHumanDecision)
      → All (λ k. Occurs (decided_by k) h) ks
      → All (λ k. Occurs (decided_by k) (x ∷ h)) ks
  decisions-later [] s = tt
  decisions-later (k ∷ ks) (o, s) = (Occurs.later o, decisions-later ks s)

  pub early-later : (c : Config) → EarlySound patches h c → EarlySound patches (x ∷ h) c
  early-later c (s, t) =
      (confirmations-later c.early_confirmations s, decisions-later c.early_decisions t)

  pub commands-later :
      (cs : List Command) → All (CommandSound patches h) cs → All (CommandSound patches (x ∷ h)) cs
  commands-later [] s = tt
  commands-later (Command.execute_refund p ∷ cs) (s, t) = (Justified-later p s, commands-later cs t)
  commands-later (k ∷ cs) (s, t) = (tt, commands-later cs t)
