-- ===== src/Workflow/Machine/Consent.antt =====
-- A run of the workflow submits a refund only with the customer's consent, on somebody's authority
-- and on refreshed facts.
use customer_service_os_lite.Common.{
  ℕ, true, Option, none, some, ◌≡◌, refl, [], ◌∷◌, List, arith, sym, subst,
}
use customer_service_os_lite.Common.Lists.{All, All-append}
use customer_service_os_lite.Common.Dates.{Timestamp}
use customer_service_os_lite.Workflow.Types.{
  RefundWorkflowRequest, RefundCustomerConfirmation, RefundHumanDecision, RefundProviderOutcome,
  EvidenceRecovery, Command, Resolution, Signal, Event, Point, Config, Patches,
}
use customer_service_os_lite.Workflow.History.{
  History, Occurs, CurrentAt, confirmed_by, decided_by, PointSound, EarlySound, CommandSound,
  ReactionSound, Evaluated,
}
use customer_service_os_lite.Workflow.History.Later.{point-later, early-later, commands-later}
use customer_service_os_lite.Workflow.Offer.{is_refund_preview_current}
use customer_service_os_lite.Workflow.Settle.Consent.{resume_settling_sound, signal_outcome_sound}
use customer_service_os_lite.Workflow.Offer.Consent.{signal_confirmation_sound}
use customer_service_os_lite.Workflow.Offer.Decisions.{resume_offering_sound, signal_decision_sound}
use customer_service_os_lite.Workflow.Intake.Consent.{resume_intake_sound, start_sound}
use customer_service_os_lite.Workflow.Machine.{resume, confirm, decide, settle, step, run_from, run}

-- The policy decision that the run before has carried over.
abbrev pub carried_over : Option EvidenceRecovery → History
carried_over none = []
carried_over (some r) = (0, Event.resolved (Resolution.policy_decided r.decision)) ∷ []

carried_over-Evaluated :
    (o : Option EvidenceRecovery) (r : EvidenceRecovery)
    → o ≡ some r
    → Evaluated (carried_over o) r.decision
carried_over-Evaluated o r e =
    subst (λ o. Evaluated (carried_over o) r.decision) (sym e) Occurs.here

-- The events of a run behind those of its history, the last one first.
abbrev pub past : History → List (ℕ × Event) → History
past h [] = h
past h (x ∷ xs) = past (x ∷ h) xs

abbrev Carries : RefundWorkflowRequest → History → Type 0
Carries request h =
    (r : EvidenceRecovery) → request.evidence_recovery ≡ some r → Evaluated h r.decision

module _ (request : RefundWorkflowRequest) (patches : Patches) where
  module _ (h : History) (c : Config) (now : ℕ) (carries : Carries request h)
      (early : EarlySound patches h c)
      (clock : (until : Timestamp) (k : RefundCustomerConfirmation)
        → Occurs (confirmed_by k) h
        → is_refund_preview_current until now ≡ true
        → CurrentAt k until h) where
    resume_sound :
        (at : Point) (r : Resolution)
        → c.point ≡ at
        → PointSound patches h at
        → Occurs (Event.resolved r) h
        → ReactionSound patches h (resume request patches c now at r)
    unfolding resume
    resume_sound (Point.intake at) r e s o =
        resume_intake_sound patches h request c early carries now at r e s o
    resume_sound (Point.offering at) r e s o =
        resume_offering_sound patches h request c early now clock at r e s o
    resume_sound (Point.settling at) r e s o =
        resume_settling_sound patches h request c early at r e s o
    resume_sound at r e s o = ground arith

    confirm_sound :
        (at : Point) (k : RefundCustomerConfirmation)
        → c.point ≡ at
        → PointSound patches h at
        → Occurs (confirmed_by k) h
        → ReactionSound patches h (confirm request patches c now at k)
    unfolding confirm
    confirm_sound (Point.offering at) k e s o =
        signal_confirmation_sound patches h request c early now clock at k e s o
    confirm_sound at k e s o =
        let kept =
          All-append (λ k. Occurs (confirmed_by k) h) c.early_confirmations (k ∷ []) early.0
            (o, tt) in
        ground arith

    decide_sound :
        (at : Point) (k : RefundHumanDecision)
        → c.point ≡ at
        → PointSound patches h at
        → Occurs (decided_by k) h
        → ReactionSound patches h (decide request patches c at k)
    unfolding decide
    decide_sound (Point.offering at) k e s o =
        signal_decision_sound patches h request c early at k e s o
    decide_sound at k e s o =
        let kept =
          All-append (λ k. Occurs (decided_by k) h) c.early_decisions (k ∷ []) early.1 (o, tt) in
        ground arith

    settle_sound :
        (at : Point) (o : RefundProviderOutcome)
        → c.point ≡ at
        → PointSound patches h at
        → ReactionSound patches h (settle request patches c at o)
    unfolding settle
    settle_sound (Point.settling at) o e s = signal_outcome_sound patches h request c early at o e s
    settle_sound at o e s = ground arith

  step_at_sound :
      (h : History) (c : Config) (now : ℕ) (e : Event)
      → Carries request ((now, e) ∷ h)
      → EarlySound patches ((now, e) ∷ h) c
      → PointSound patches ((now, e) ∷ h) c.point
      → ReactionSound patches ((now, e) ∷ h) (step request patches c now e)
  unfolding step
  step_at_sound h c now (Event.resolved r) carries early s =
      resume_sound _ c now carries early (λ until k. CurrentAt.here) c.point r refl s Occurs.here
  step_at_sound h c now (Event.signalled (Signal.confirm_refund k)) carries early s =
      confirm_sound _ c now carries early (λ until k. CurrentAt.here) c.point k refl s Occurs.here
  step_at_sound h c now (Event.signalled (Signal.decide_refund k)) carries early s =
      decide_sound _ c now carries early (λ until k. CurrentAt.here) c.point k refl s Occurs.here
  step_at_sound h c now (Event.signalled (Signal.record_provider_refund_outcome o)) carries early
        s =
      settle_sound _ c now carries early (λ until k. CurrentAt.here) c.point o refl s

  run_from_sound :
      (h : History) (c : Config) (issued : List Command) (es : List (ℕ × Event))
      → Carries request h
      → ReactionSound patches h (c, issued)
      → ReactionSound patches (past h es) (run_from request patches c issued es)
  unfolding run_from
  run_from_sound h c issued [] carries s = s
  run_from_sound h c issued ((now, e) ∷ es) carries (s, early, commands) =
      let h' : History = (now, e) ∷ h in
      let carries' : Carries request h' = λ r e. Occurs.later (carries r e) in
      let next =
        step_at_sound h c now e carries' (early-later patches (now, e) h c early)
          (point-later patches (now, e) h c.point s) in
      run_from_sound h' _ _ es carries' (
        next.0,
        next.1,
        All-append (CommandSound patches h') issued _
            (commands-later patches (now, e) h issued commands) next.2,
      )

  -- Whatever activities return, timers do and signals arrive, in any order: a run submits the
  -- refund of a preview only if, among the events of the run and the policy decision that it may
  -- have taken over from the run before, an activity made that preview, a signal accepted it (at a
  -- time before its deadline, where the expiry patch is on), a policy decision has the effect to
  -- allow, or a human signal approves or approves an exceptional refund, and a context was read that
  -- leaves the preview's amount available.
  pub run_justified :
      (es : List (ℕ × Event))
      → All
          (CommandSound patches (past (carried_over request.evidence_recovery) es))
          (run request patches es).1
  unfolding run
  run_justified es =
      let h = carried_over request.evidence_recovery in
      (run_from_sound h _ _ es (carried_over-Evaluated request.evidence_recovery)
        (start_sound patches h request)).2
