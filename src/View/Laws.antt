-- ===== src/View/Laws.antt =====
-- What a customer is shown of the refund workflow
-- (apps/services/edge-api/src/refund-journey-view.ts), stage by stage.
use customer_service_os_lite.Common.{
  ℕ, ◌+◌, ◌≤◌, Bool, ◌≡◌, refl, sym, ap, ◌∙◌, ◌↔◌, Option, List, [], ◌∷◌, String, arith,
}
use customer_service_os_lite.Journey.Types.{RefundPreview}
use customer_service_os_lite.Workflow.Types.{Stage}
use customer_service_os_lite.View.{
  JourneyStage, ActionType, StepStatus, TimelineStep, RefundWorkflowView, stage_text, journey_stage,
  timeline_for, next_action_for, to_refund_journey_view,
}

-- The current steps of a timeline.
abbrev pub current_steps : List TimelineStep → ℕ
current_steps [] = 0
current_steps (s ∷ ss) = elim s.status [ StepStatus.current ↦ 1 | _ ↦ 0 ] + current_steps ss

-- What the table shows for each stage of the workflow.
shown_as : Stage → JourneyStage
shown_as Stage.evaluating = JourneyStage.request_received
shown_as Stage.awaiting_customer_evidence = JourneyStage.awaiting_customer_evidence
shown_as Stage.awaiting_evidence_review = JourneyStage.awaiting_evidence_review
shown_as Stage.evidence_collection_expired = JourneyStage.evidence_collection_expired
shown_as Stage.awaiting_customer_confirmation = JourneyStage.refund_preview_ready
shown_as Stage.confirmed = JourneyStage.refund_processing
shown_as Stage.cancelled = JourneyStage.refund_cancelled
shown_as Stage.needs_facts = JourneyStage.more_information_needed
shown_as Stage.denied = JourneyStage.refund_not_approved
shown_as Stage.awaiting_approval = JourneyStage.specialist_reviewing
shown_as Stage.human_takeover_required = JourneyStage.specialist_reviewing
shown_as Stage.approved = JourneyStage.refund_processing
shown_as Stage.rejected = JourneyStage.refund_not_approved
shown_as Stage.takeover_resolved = JourneyStage.request_resolved
shown_as Stage.preview_invalidated = JourneyStage.preview_expired
shown_as Stage.refund_processing = JourneyStage.refund_processing
shown_as Stage.refund_succeeded = JourneyStage.refund_completed
shown_as Stage.refund_failed = JourneyStage.refund_failed
shown_as Stage.pending_reconciliation = JourneyStage.refund_processing

shown_as_lem : (s : Stage) → journey_stage (stage_text s) ≡ shown_as s
unfolding journey_stage stage_text shown_as
shown_as_lem Stage.evaluating = refl
shown_as_lem s = refl

completed_back :
    (s : Stage) → shown_as s ≡ JourneyStage.refund_completed → s ≡ Stage.refund_succeeded
unfolding shown_as
completed_back s h = ground arith

completed_there :
    (s : Stage) → s ≡ Stage.refund_succeeded → shown_as s ≡ JourneyStage.refund_completed
unfolding shown_as
completed_there s h = ground arith

confirm_back :
    (s : Stage)
    → (next_action_for (shown_as s)).type ≡ ActionType.confirm_refund
    → s ≡ Stage.awaiting_customer_confirmation
unfolding shown_as next_action_for
confirm_back s h = ground arith

confirm_there :
    (s : Stage)
    → s ≡ Stage.awaiting_customer_confirmation
    → (next_action_for (shown_as s)).type ≡ ActionType.confirm_refund
unfolding shown_as next_action_for
confirm_there s h = ground arith

-- A customer is shown a completed refund exactly when the workflow's stage is REFUND_SUCCEEDED, and is
-- asked to confirm exactly when the stage is AWAITING_CUSTOMER_CONFIRMATION.
pub shown_iff :
    (workflow_id : String) (stage : Stage) (preview : Option RefundPreview)
    (can_upload : Option Bool)
    → (((to_refund_journey_view workflow_id
            (record { stage = stage_text stage; preview = preview })
            can_upload).stage
          ≡ JourneyStage.refund_completed)
        ↔ (stage ≡ Stage.refund_succeeded))
      × (((to_refund_journey_view workflow_id
              (record { stage = stage_text stage; preview = preview })
              can_upload).next_action.type
            ≡ ActionType.confirm_refund)
          ↔ (stage ≡ Stage.awaiting_customer_confirmation))
shown_iff workflow_id stage preview can_upload =
    unfold to_refund_journey_view in
    let shown = shown_as_lem stage in
    (
      (λ h. completed_back stage (sym shown ∙ h), λ h. shown ∙ completed_there stage h),
      (
        λ h. confirm_back stage (sym (ap (λ s. (next_action_for s).type) shown) ∙ h),
        λ h. ap (λ s. (next_action_for s).type) shown ∙ confirm_there stage h,
      ),
    )

one_current : (stage : JourneyStage) (b : Bool) → current_steps (timeline_for stage b) ≤ 1
unfolding timeline_for
one_current stage b = ground arith

-- Whatever the workflow's stage is, even a text that is none of its stages, the timeline has at most
-- one current step.
pub current_at_most_once :
    (workflow_id : String) (workflow : RefundWorkflowView) (can_upload : Option Bool)
    → current_steps (to_refund_journey_view workflow_id workflow can_upload).timeline ≤ 1
current_at_most_once workflow_id workflow can_upload =
    unfold to_refund_journey_view in one_current (journey_stage workflow.stage) _
