-- ===== src/Workflow/Offer/Decisions.antt =====
-- The human cases of the offering phase: what each point remembers of the human's decision, and
-- every resolved await of the phase.
use customer_service_os_lite.Common.{
  ℕ, Bool, true, ◌≡◌, refl, Option, some, [], ◌∷◌, List, String, sym, arith,
}
use customer_service_os_lite.Common.Lists.{All, All-append}
use customer_service_os_lite.Common.Dates.{Timestamp}
use customer_service_os_lite.Policy.Types.{RefundPolicyDecision, PolicyEffect}
use customer_service_os_lite.Journey.Types.{RefundContext, RefundPreview, AcceptedDamageEvidence}
use customer_service_os_lite.Workflow.Types.{
  RefundWorkflowRequest, RefundCustomerConfirmation, RefundHumanDecision, HumanAction, approve,
  approve_exceptional_refund, Config, OfferPoint, Resolution, Event, Point, Patches,
}
use customer_service_os_lite.Workflow.History.{
  History, Occurs, CurrentAt, confirmed_by, decided_by, Consent, Decided, Authority, Evaluated,
  Offered, OfferSound, EarlySound, ReactionSound,
}
use customer_service_os_lite.Workflow.Settle.Consent.{execute_authorized_sound}
use customer_service_os_lite.Workflow.Offer.{
  is_refund_preview_current, is_approval_action, is_takeover_action, first_decision, after_approval,
  after_takeover, approval_opened, takeover_opened, approval_closed, takeover_closed, switch_effect,
  offer_preview, exception_refreshed, exception_reread, exception_redecided, resume_offering,
  signal_decision,
}
use customer_service_os_lite.Workflow.Offer.Consent.{
  unconfirmed_sound, after_confirmation_sound, wait_sound,
}

first_decision-Occurs :
    (h : History) (takes : HumanAction → Bool) (ks : List RefundHumanDecision)
    (k : RefundHumanDecision)
    → first_decision takes ks ≡ some k
    → All (λ k. Occurs (decided_by k) h) ks
    → Occurs (decided_by k) h × (takes k.decision ≡ true)
unfolding first_decision
first_decision-Occurs h takes [] k e o = ground arith
first_decision-Occurs h takes (j ∷ ks) k e (o, os) =
    ground (arith, first_decision-Occurs h takes ks k)

module _ (patches : Patches) (h : History) (request : RefundWorkflowRequest) (c : Config)
    (early : EarlySound patches h c) where
  after_approval_sound :
      (d : RefundPolicyDecision) (p : RefundPreview) (id : String) (k : RefundHumanDecision)
      → Offered h p
      → Consent patches h p
      → Occurs (decided_by k) h × (is_approval_action k.decision ≡ true)
      → ReactionSound patches h (after_approval c d p id k)
  unfolding after_approval
  after_approval_sound d p id k offered consent o = ground arith

  after_takeover_sound :
      (d : RefundPolicyDecision) (id : String) (k : RefundHumanDecision)
      → Occurs (decided_by k) h
      → ReactionSound patches h (after_takeover c d id k)
  unfolding after_takeover
  after_takeover_sound d id k o = ground arith

  pub switch_effect_sound :
      (context : RefundContext) (d : RefundPolicyDecision) (effect : PolicyEffect)
      → effect ≡ d.effect
      → Evaluated h d
      → ReactionSound patches h (switch_effect c context d effect)
  unfolding switch_effect
  switch_effect_sound context d effect e o = ground arith

  approval_closed_sound :
      (d : RefundPolicyDecision) (p : RefundPreview) (k : RefundHumanDecision) (a : HumanAction)
      → a ≡ k.decision
      → is_approval_action a ≡ true
      → Occurs (decided_by k) h
      → Offered h p
      → Consent patches h p
      → ReactionSound patches h (approval_closed request c d p a)
  approval_closed_sound d p k approve e t o offered consent =
      unfold approval_closed in
      execute_authorized_sound patches h request c early d p (
        offered,
        consent,
        Authority.by_approval (record { decision = k; signalled = o; chosen = sym e }),
      )
  approval_closed_sound d p k a e t o offered consent =
      unfold approval_closed is_approval_action in ground arith

  takeover_closed_sound :
      (d : RefundPolicyDecision) (id : String) (k : RefundHumanDecision) (a : HumanAction)
      → a ≡ k.decision
      → Occurs (decided_by k) h
      → ReactionSound patches h (takeover_closed c d id a)
  takeover_closed_sound d id k approve_exceptional_refund e o =
      unfold takeover_closed in
      let decided : Decided h approve_exceptional_refund = record {
        decision = k;
        signalled = o;
        chosen = sym e;
      } in
      (decided, early, (tt, tt))
  takeover_closed_sound d id k a e o = unfold takeover_closed in ground arith

  exception_refreshed_sound :
      (d : RefundPolicyDecision) (id : String) (context : RefundContext)
      → Decided h approve_exceptional_refund
      → ReactionSound patches h (exception_refreshed c d id context)
  unfolding exception_refreshed
  exception_refreshed_sound d id context o = ground arith

  exception_reread_sound :
      (d : RefundPolicyDecision) (id : String) (context : RefundContext)
      (a : AcceptedDamageEvidence) (current : Option AcceptedDamageEvidence)
      → Decided h approve_exceptional_refund
      → ReactionSound patches h (exception_reread c d id context a current)
  unfolding exception_reread
  exception_reread_sound d id context a current o = ground arith

  exception_redecided_sound :
      (id : String) (context : RefundContext) (d : RefundPolicyDecision) (effect : PolicyEffect)
      → Decided h approve_exceptional_refund
      → ReactionSound patches h (exception_redecided c id context d effect)
  unfolding exception_redecided
  exception_redecided_sound id context d effect o = ground arith

  -- The first early decision that a handler takes.
  approval_opened_sound :
      (d : RefundPolicyDecision) (p : RefundPreview) (id : String)
      → Offered h p
      → Consent patches h p
      → ReactionSound patches h (approval_opened c d p id)
  unfolding approval_opened after_approval
  approval_opened_sound d p id offered consent = grind (
    arith,
    λ (k : RefundHumanDecision) (e : first_decision is_approval_action c.early_decisions ≡ some k).
        first_decision-Occurs h is_approval_action c.early_decisions k e early.1,
  )

  takeover_opened_sound :
      (d : RefundPolicyDecision) (id : String) → ReactionSound patches h (takeover_opened c d id)
  unfolding takeover_opened after_takeover
  takeover_opened_sound d id = grind (
    arith,
    λ (k : RefundHumanDecision) (e : first_decision is_takeover_action c.early_decisions ≡ some k).
        first_decision-Occurs h is_takeover_action c.early_decisions k e early.1,
  )

  pub signal_decision_sound :
      (at : OfferPoint) (k : RefundHumanDecision)
      → c.point ≡ Point.offering at
      → OfferSound patches h at
      → Occurs (decided_by k) h
      → ReactionSound patches h (signal_decision c at k)
  unfolding signal_decision
  signal_decision_sound (OfferPoint.awaiting_approval d p id) k e (offered, consent) o =
      grind (arith, after_approval_sound d p id k offered consent)
  signal_decision_sound (OfferPoint.awaiting_takeover d id) k e s o =
      grind (arith, after_takeover_sound d id k o)
  signal_decision_sound at k e s o =
      let kept =
        All-append (λ k. Occurs (decided_by k) h) c.early_decisions (k ∷ []) early.1 (o, tt) in
      grind arith

  module _ (now : ℕ)
      (clock : (until : Timestamp) (k : RefundCustomerConfirmation)
        → Occurs (confirmed_by k) h
        → is_refund_preview_current until now ≡ true
        → CurrentAt k until h) where
    pub resume_offering_sound :
        (at : OfferPoint) (r : Resolution)
        → c.point ≡ Point.offering at
        → OfferSound patches h at
        → Occurs (Event.resolved r) h
        → ReactionSound patches h (resume_offering request patches c now at r)
    unfolding resume_offering
    resume_offering_sound (OfferPoint.previewing route d) (Resolution.preview_made p) e s o =
        unfold offer_preview in wait_sound patches h request _ early now clock route d p s o
    resume_offering_sound (OfferPoint.previewing route d) r e s o = ground arith
    resume_offering_sound (OfferPoint.confirming route d p) r e s o =
        ground (arith, unconfirmed_sound patches h request c early route)
    resume_offering_sound (OfferPoint.observing route d p k) r e (open', offered, heard) o =
        ground (
          arith,
          after_confirmation_sound patches h request c early route d p k k.accepted refl open'
              offered heard,
        )
    resume_offering_sound (OfferPoint.withdrawing next) r e s o = ground arith
    resume_offering_sound (OfferPoint.opening_approval d p) (Resolution.case_opened id) e
          (offered, consent) o =
        approval_opened_sound d p id offered consent
    resume_offering_sound (OfferPoint.opening_approval d p) r e s o = ground arith
    resume_offering_sound (OfferPoint.awaiting_approval d p id) r e s o = ground arith
    resume_offering_sound (OfferPoint.closing_approval d p k) r e (offered, consent, o', t) o =
        ground (arith, approval_closed_sound d p k k.decision refl t o' offered consent)
    resume_offering_sound (OfferPoint.opening_takeover d) (Resolution.case_opened id) e s o =
        takeover_opened_sound d id
    resume_offering_sound (OfferPoint.opening_takeover d) r e s o = ground arith
    resume_offering_sound (OfferPoint.awaiting_takeover d id) r e s o = ground arith
    resume_offering_sound (OfferPoint.closing_takeover d id k) r e s o =
        ground (arith, takeover_closed_sound d id k k.decision refl s)
    resume_offering_sound (OfferPoint.refreshing_exception d id) r e s o =
        grind (arith, λ (context : RefundContext). exception_refreshed_sound d id context s)
    resume_offering_sound (OfferPoint.rereading_exception d id context a)
          (Resolution.evidence_read current) e s o =
        exception_reread_sound d id context a current.accepted s
    resume_offering_sound (OfferPoint.rereading_exception d id context a) r e s o = ground arith
    resume_offering_sound (OfferPoint.redeciding_exception id context) (Resolution.policy_decided d)
          e s o =
        exception_redecided_sound id context d d.effect s
    resume_offering_sound (OfferPoint.redeciding_exception id context) r e s o = ground arith
