-- ===== src/Tests/View.antt =====
-- Tests of apps/services/edge-api/src/refund-journey-view.ts.
use customer_service_os_lite.Common.{◌≡◌, refl, ◌↔◌, ◌≤◌, none, some, true}
use customer_service_os_lite.Workflow.Types.{Stage}
use customer_service_os_lite.View.{
  JourneyStage, ActionType, RefundWorkflowView, stage_text, to_refund_journey_view,
}
use customer_service_os_lite.View.Laws.{current_steps, shown_iff, current_at_most_once}
use customer_service_os_lite.Tests.Fixtures.{preview}

abbrev unknown : RefundWorkflowView
unknown = record { stage = "PAUSED"; preview = some preview }

falls_back : (to_refund_journey_view "w" unknown none).stage ≡ JourneyStage.request_received
unfolding to_refund_journey_view
falls_back = refl

shown_iff_example :
    (((to_refund_journey_view "w"
          (record { stage = stage_text Stage.refund_succeeded; preview = some preview })
          (some true)).stage
        ≡ JourneyStage.refund_completed)
      ↔ (Stage.refund_succeeded ≡ Stage.refund_succeeded))
    × (((to_refund_journey_view "w"
            (record { stage = stage_text Stage.refund_succeeded; preview = some preview })
            (some true)).next_action.type
          ≡ ActionType.confirm_refund)
        ↔ (Stage.refund_succeeded ≡ Stage.awaiting_customer_confirmation))
shown_iff_example = shown_iff "w" Stage.refund_succeeded (some preview) (some true)

current_at_most_once_example : current_steps (to_refund_journey_view "w" unknown none).timeline ≤ 1
current_at_most_once_example = current_at_most_once "w" unknown none
