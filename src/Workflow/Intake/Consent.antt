-- ===== src/Workflow/Intake/Consent.antt =====
-- Up to the decision that the `switch` looks at, nothing is submitted, and early signals are kept.
use customer_service_os_lite.Common.{ℕ, ◌+◌, ◌≡◌, refl, some, arith}
use customer_service_os_lite.Policy.Types.{RefundPolicyDecision}
use customer_service_os_lite.Journey.Types.{RefundContext}
use customer_service_os_lite.Workflow.Types.{
  EvidenceSnapshot, EvidenceRecovery, RefundWorkflowRequest, Config, IntakePoint, Resolution, Event,
  Point, Patches,
}
use customer_service_os_lite.Workflow.History.{
  History, Occurs, Evaluated, PointSound, EarlySound, ReactionSound,
}
use customer_service_os_lite.Workflow.Settle.{reconcile_pending_refund}
use customer_service_os_lite.Workflow.Offer.Decisions.{switch_effect_sound}
use customer_service_os_lite.Workflow.Intake.{
  after_first_decision, collect_evidence, after_poll, after_second_decision, context_arrived,
  resume_intake, start,
}

module _ (patches : Patches) (h : History) (request : RefundWorkflowRequest) (c : Config)
    (early : EarlySound patches h c)
    (carried : (r : EvidenceRecovery)
      → request.evidence_recovery ≡ some r
      → Evaluated h r.decision) where
  after_first_sound :
      (context : RefundContext) (d : RefundPolicyDecision)
      → Evaluated h d
      → ReactionSound patches h (after_first_decision request c context d)
  unfolding after_first_decision
  after_first_sound context d o =
      ground (arith, switch_effect_sound patches h request c early context d d.effect refl o)

  after_second_sound :
      (e : EvidenceSnapshot) (context : RefundContext) (d : RefundPolicyDecision)
      → Evaluated h d
      → ReactionSound patches h (after_second_decision c e context d)
  unfolding after_second_decision
  after_second_sound e context d o =
      ground (arith, switch_effect_sound patches h request c early context d d.effect refl o)

  collect_sound :
      (d : RefundPolicyDecision) (e : EvidenceSnapshot) (deadline polls now : ℕ)
      → ReactionSound patches h (collect_evidence c d e deadline polls now)
  unfolding collect_evidence
  collect_sound d e deadline polls now = ground arith

  after_poll_sound :
      (d : RefundPolicyDecision) (e : EvidenceSnapshot) (deadline polls now : ℕ)
      → ReactionSound patches h (after_poll request c d e deadline polls now)
  unfolding after_poll
  after_poll_sound d e deadline polls now =
      ground (arith, collect_sound d e deadline (polls + 1) now)

  context_arrived_sound :
      (context : RefundContext) → ReactionSound patches h (context_arrived request c context)
  unfolding context_arrived
  context_arrived_sound context =
      grind (arith, carried, λ (r : EvidenceRecovery). after_first_sound context r.decision)

  pub resume_intake_sound :
      (now : ℕ) (at : IntakePoint) (r : Resolution)
      → c.point ≡ Point.intake at
      → PointSound patches h (Point.intake at)
      → Occurs (Event.resolved r) h
      → ReactionSound patches h (resume_intake request c now at r)
  unfolding resume_intake
  resume_intake_sound now IntakePoint.reading_context (Resolution.context_read context) e s o =
      context_arrived_sound context
  resume_intake_sound now IntakePoint.reading_context r e s o = ground arith
  resume_intake_sound now (IntakePoint.evaluating context) (Resolution.policy_decided d) e s o =
      after_first_sound context d o
  resume_intake_sound now (IntakePoint.evaluating context) r e s o = ground arith
  resume_intake_sound now (IntakePoint.opening_evidence context d) (Resolution.evidence_read x) e s
        o =
      collect_sound d x _ 0 now
  resume_intake_sound now (IntakePoint.opening_evidence context d) r e s o = ground arith
  resume_intake_sound now (IntakePoint.sleeping d deadline polls) r e s o = ground arith
  resume_intake_sound now (IntakePoint.reading_evidence d deadline polls)
        (Resolution.evidence_read x) e s o =
      after_poll_sound d x deadline polls now
  resume_intake_sound now (IntakePoint.reading_evidence d deadline polls) r e s o = ground arith
  resume_intake_sound now (IntakePoint.expiring d) r e s o = ground arith
  resume_intake_sound now (IntakePoint.refreshing x) r e s o = ground arith
  resume_intake_sound now (IntakePoint.reevaluating x context) (Resolution.policy_decided d) e s o =
      after_second_sound x context d o
  resume_intake_sound now (IntakePoint.reevaluating x context) r e s o = ground arith
  resume_intake_sound now (IntakePoint.completing x context d) Resolution.evidence_closed e s o =
      switch_effect_sound patches h request c early context d d.effect refl s
  resume_intake_sound now (IntakePoint.completing x context d) r e s o = ground arith

pub start_sound :
    (patches : Patches) (h : History) (request : RefundWorkflowRequest)
    → ReactionSound patches h (start request)
unfolding start reconcile_pending_refund
start_sound patches h request = ground arith
