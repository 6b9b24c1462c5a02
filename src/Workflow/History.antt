-- ===== src/Workflow/History.antt =====
-- What a point of the workflow (refund-workflow.ts) remembers of the events that led to it. A
-- history has its last event first.
pub mod Later
use customer_service_os_lite.Common.{
  ℕ, Bool, true, false, ◌≡◌, ◌⊎◌, refl, Option, none, some, List, [], ◌∷◌, ◌++◌, String, arith,
}
use customer_service_os_lite.Common.Lists.{All}
use customer_service_os_lite.Common.Dates.{Timestamp}
use customer_service_os_lite.Policy.Types.{RefundPolicyDecision, PolicyEffect}
use customer_service_os_lite.Journey.Types.{RefundContext, RefundPreview}
use customer_service_os_lite.Workflow.Types.{
  RefundCustomerConfirmation, RefundHumanDecision, HumanAction, Command, Resolution, Signal, Event,
  Route, automatic, approval, exceptional, IntakePoint, OfferPoint, SettlePoint, Point, Config,
  Patches, Reaction,
}
use customer_service_os_lite.Workflow.Settle.{amount_still_available}
use customer_service_os_lite.Workflow.Offer.{is_refund_preview_current, is_approval_action}

abbrev pub History : Type 0
History = List (ℕ × Event)

pub data Occurs (e : Event) : History → Type 0 where
  here : {n : ℕ} {h : History} → Occurs e ((n, e) ∷ h)
  later : {x : ℕ × Event} {h : History} → Occurs e h → Occurs e (x ∷ h)

abbrev pub confirmed_by : RefundCustomerConfirmation → Event
confirmed_by k = Event.signalled (Signal.confirm_refund k)

abbrev pub decided_by : RefundHumanDecision → Event
decided_by d = Event.signalled (Signal.decide_refund d)

-- At the confirmation or some event after it, the deadline had not come.
pub data CurrentAt (k : RefundCustomerConfirmation) (until : Timestamp) : History → Type 0 where
  here :
      {n : ℕ} {e : Event} {h : History}
      → Occurs (confirmed_by k) ((n, e) ∷ h)
      → is_refund_preview_current until n ≡ true
      → CurrentAt k until ((n, e) ∷ h)
  later : {x : ℕ × Event} {h : History} → CurrentAt k until h → CurrentAt k until (x ∷ h)

-- The customer has answered this preview, and in time where the expiry patch is on.
pub record Hears (patches : Patches) (h : History) (p : RefundPreview)
    (k : RefundCustomerConfirmation) : Type 0 where
  pub signalled : Occurs (confirmed_by k) h
  pub matching : k.preview_id ≡ p.preview_id
  pub timely : (patches.expiry_confirmation ≡ false) ⊎ CurrentAt k p.valid_until h

-- The customer has accepted this preview.
pub record Consent (patches : Patches) (h : History) (p : RefundPreview) : Type 0 where
  pub confirmation : RefundCustomerConfirmation
  pub answer : Hears patches h p confirmation
  pub accepted : confirmation.accepted ≡ true

-- A human has decided for an action.
pub record Decided (h : History) (action : HumanAction) : Type 0 where
  pub decision : RefundHumanDecision
  pub signalled : Occurs (decided_by decision) h
  pub chosen : decision.decision ≡ action

abbrev pub Evaluated : History → RefundPolicyDecision → Type 0
Evaluated h d = Occurs (Event.resolved (Resolution.policy_decided d)) h

-- On whose authority a refund goes out.
pub data Authority (h : History) (d : RefundPolicyDecision) : Type 0 where
  by_policy : Evaluated h d → d.effect ≡ PolicyEffect.allow → Authority h d
  by_approval : Decided h HumanAction.approve → Authority h d
  by_exception : Decided h HumanAction.approve_exceptional_refund → Authority h d

abbrev pub Offered : History → RefundPreview → Type 0
Offered h p = Occurs (Event.resolved (Resolution.preview_made p)) h

-- All that the submission of a refund rests on.
pub record Justified (patches : Patches) (h : History) (p : RefundPreview) : Type 0 where
  pub offered : Offered h p
  pub consent : Consent patches h p
  pub decision : RefundPolicyDecision
  pub authority : Authority h decision
  pub facts : RefundContext
  pub refreshed : Occurs (Event.resolved (Resolution.context_read facts)) h
  pub available : amount_still_available facts p ≡ true

abbrev pub RouteIsOpen : History → RefundPolicyDecision → Route → Type 0
RouteIsOpen h d automatic = Evaluated h d × (d.effect ≡ PolicyEffect.allow)
RouteIsOpen h d approval = Unit
RouteIsOpen h d (exceptional id) = Decided h HumanAction.approve_exceptional_refund

module _ (patches : Patches) (h : History) where
  abbrev pub OfferSound : OfferPoint → Type 0
  OfferSound (OfferPoint.previewing route d) = RouteIsOpen h d route
  OfferSound (OfferPoint.confirming route d p) = RouteIsOpen h d route × Offered h p
  OfferSound (OfferPoint.observing route d p k) =
      RouteIsOpen h d route × Offered h p × Hears patches h p k
  OfferSound (OfferPoint.opening_approval d p) = Offered h p × Consent patches h p
  OfferSound (OfferPoint.awaiting_approval d p id) = Offered h p × Consent patches h p
  OfferSound (OfferPoint.closing_approval d p k) =
      Offered h p
      × Consent patches h p
      × Occurs (decided_by k) h
      × (is_approval_action k.decision ≡ true)
  OfferSound (OfferPoint.closing_takeover d id k) = Occurs (decided_by k) h
  OfferSound (OfferPoint.refreshing_exception d id) =
      Decided h HumanAction.approve_exceptional_refund
  OfferSound (OfferPoint.rereading_exception d id context a) =
      Decided h HumanAction.approve_exceptional_refund
  OfferSound (OfferPoint.redeciding_exception id context) =
      Decided h HumanAction.approve_exceptional_refund
  OfferSound _ = Unit

  abbrev pub IsReady : RefundPolicyDecision → RefundPreview → Type 0
  IsReady d p = Offered h p × Consent patches h p × Authority h d

  abbrev pub SettleSound : SettlePoint → Type 0
  SettleSound (SettlePoint.checking_evidence d p) = IsReady d p
  SettleSound (SettlePoint.rechecking_context d p) = IsReady d p
  SettleSound _ = Unit

  abbrev pub PointSound : Point → Type 0
  PointSound (Point.intake (IntakePoint.completing e context d)) = Evaluated h d
  PointSound (Point.offering at) = OfferSound at
  PointSound (Point.settling at) = SettleSound at
  PointSound _ = Unit

  -- The early signals that are kept have all been signalled.
  abbrev pub EarlySound : Config → Type 0
  EarlySound c =
      All (λ k. Occurs (confirmed_by k) h) c.early_confirmations
      × All (λ k. Occurs (decided_by k) h) c.early_decisions

  abbrev pub CommandSound : Command → Type 0
  CommandSound (Command.execute_refund p) = Justified patches h p
  CommandSound _ = Unit

  abbrev pub ReactionSound : Reaction → Type 0
  ReactionSound (c, commands) = PointSound c.point × EarlySound c × All CommandSound commands
