-- ===== src/View.antt =====
-- `toRefundJourneyView` of apps/services/edge-api/src/refund-journey-view.ts: what a customer sees of
-- the refund workflow.
pub mod Laws
use customer_service_os_lite.Common.{
  ℕ, ◌+◌, Bool, true, false, ◌&&◌, ◌||◌, Option, none, some, List, [], ◌∷◌, String, map, ltb, ◌==◌,
  if◌then◌else◌,
}
use customer_service_os_lite.Common.Int.{ℤ}
use customer_service_os_lite.Common.Maps.{map_get}
use customer_service_os_lite.Common.Dates.{Timestamp}
use customer_service_os_lite.Policy.Types.{Money}
use customer_service_os_lite.Journey.Types.{RefundPreview}
use customer_service_os_lite.Workflow.Types.{Stage}

pub data JourneyStage : Type 0 where
  request_received refund_preview_ready specialist_reviewing refund_processing refund_completed
        more_information_needed refund_not_approved refund_cancelled preview_expired refund_failed
        request_resolved awaiting_customer_evidence awaiting_evidence_review
        evidence_collection_expired :
      JourneyStage

pub data ActionType : Type 0 where
  confirm_refund wait_for_specialist wait_for_refund contact_support provide_evidence nothing :
      ActionType

pub record NextAction : Type 0 where
  pub type : ActionType
  pub label : String

pub data StepId : Type 0 where
  request_received preview_ready specialist_review refund_processing completed : StepId

pub data StepStatus : Type 0 where
  completed current pending skipped : StepStatus

pub record TimelineStep : Type 0 where
  pub id : StepId
  pub label : String
  pub status : StepStatus

-- The refund's destination is a constant.
pub record PreviewView : Type 0 where
  pub preview_id : String
  pub amount : Money
  pub valid_until : Timestamp

-- The version is the constant "v1". Of the evidence summary, whose schema is the client's, only
-- `can_upload` is computed here.
pub record RefundJourneyView : Type 0 where
  pub workflow_id : String
  pub stage : JourneyStage
  pub can_upload : Option Bool
  pub preview : Option PreviewView
  pub next_action : NextAction
  pub timeline : List TimelineStep

pub record RefundWorkflowView : Type 0 where
  pub stage : String
  pub preview : Option RefundPreview

-- `STAGE_BY_WORKFLOW_STAGE`
abbrev pub stage_by_workflow_stage : List (String × JourneyStage)
stage_by_workflow_stage =
    ("EVALUATING", JourneyStage.request_received)
    ∷ ("AWAITING_CUSTOMER_EVIDENCE", JourneyStage.awaiting_customer_evidence)
    ∷ ("AWAITING_EVIDENCE_REVIEW", JourneyStage.awaiting_evidence_review)
    ∷ ("EVIDENCE_COLLECTION_EXPIRED", JourneyStage.evidence_collection_expired)
    ∷ ("AWAITING_CUSTOMER_CONFIRMATION", JourneyStage.refund_preview_ready)
    ∷ ("AWAITING_APPROVAL", JourneyStage.specialist_reviewing)
    ∷ ("HUMAN_TAKEOVER_REQUIRED", JourneyStage.specialist_reviewing)
    ∷ ("CONFIRMED", JourneyStage.refund_processing)
    ∷ ("APPROVED", JourneyStage.refund_processing)
    ∷ ("REFUND_PROCESSING", JourneyStage.refund_processing)
    ∷ ("PENDING_RECONCILIATION", JourneyStage.refund_processing)
    ∷ ("REFUND_SUCCEEDED", JourneyStage.refund_completed)
    ∷ ("NEEDS_FACTS", JourneyStage.more_information_needed)
    ∷ ("DENIED", JourneyStage.refund_not_approved)
    ∷ ("REJECTED", JourneyStage.refund_not_approved)
    ∷ ("TAKEOVER_RESOLVED", JourneyStage.request_resolved)
    ∷ ("CANCELLED", JourneyStage.refund_cancelled)
    ∷ ("PREVIEW_INVALIDATED", JourneyStage.preview_expired)
    ∷ ("REFUND_FAILED", JourneyStage.refund_failed)
    ∷ []

-- The texts of the workflow's stages (refund-workflow.ts).
pub stage_text : Stage → String
stage_text Stage.evaluating = "EVALUATING"
stage_text Stage.awaiting_customer_evidence = "AWAITING_CUSTOMER_EVIDENCE"
stage_text Stage.awaiting_evidence_review = "AWAITING_EVIDENCE_REVIEW"
stage_text Stage.evidence_collection_expired = "EVIDENCE_COLLECTION_EXPIRED"
stage_text Stage.awaiting_customer_confirmation = "AWAITING_CUSTOMER_CONFIRMATION"
stage_text Stage.confirmed = "CONFIRMED"
stage_text Stage.cancelled = "CANCELLED"
stage_text Stage.needs_facts = "NEEDS_FACTS"
stage_text Stage.denied = "DENIED"
stage_text Stage.awaiting_approval = "AWAITING_APPROVAL"
stage_text Stage.human_takeover_required = "HUMAN_TAKEOVER_REQUIRED"
stage_text Stage.approved = "APPROVED"
stage_text Stage.rejected = "REJECTED"
stage_text Stage.takeover_resolved = "TAKEOVER_RESOLVED"
stage_text Stage.preview_invalidated = "PREVIEW_INVALIDATED"
stage_text Stage.refund_processing = "REFUND_PROCESSING"
stage_text Stage.refund_succeeded = "REFUND_SUCCEEDED"
stage_text Stage.refund_failed = "REFUND_FAILED"
stage_text Stage.pending_reconciliation = "PENDING_RECONCILIATION"

-- `STAGE_BY_WORKFLOW_STAGE[stage] ?? 'REQUEST_RECEIVED'`, for a text that is no key of `Object`'s
-- prototype.
pub journey_stage : String → JourneyStage
unfolding map_get
journey_stage stage = elim (map_get stage stage_by_workflow_stage) [
  | none ↦ JourneyStage.request_received
  | some s ↦ s
]

abbrev next : ActionType → String → NextAction
next type label = record { type = type; label = label }

pub next_action_for : JourneyStage → NextAction
next_action_for JourneyStage.awaiting_customer_evidence =
    next ActionType.provide_evidence "Add a clear photo of the damaged item"
next_action_for JourneyStage.awaiting_evidence_review =
    next ActionType.wait_for_specialist "A specialist is reviewing your photos"
next_action_for JourneyStage.evidence_collection_expired =
    next ActionType.nothing "Start a new request if you still need help"
next_action_for JourneyStage.refund_preview_ready =
    next ActionType.confirm_refund "Review and confirm your refund"
next_action_for JourneyStage.specialist_reviewing =
    next ActionType.wait_for_specialist "A specialist is reviewing your request"
next_action_for JourneyStage.request_received =
    next ActionType.wait_for_refund "We are processing your request"
next_action_for JourneyStage.refund_processing =
    next ActionType.wait_for_refund "We are processing your request"
next_action_for JourneyStage.more_information_needed =
    next ActionType.contact_support "Please contact support for more information"
next_action_for _ = next ActionType.nothing "No action is needed"

-- `currentTimelineStep`, as the index in `TIMELINE` that `findIndex` gives
pub current_index : JourneyStage → ℕ
current_index JourneyStage.refund_preview_ready = 1
current_index JourneyStage.specialist_reviewing = 2
current_index JourneyStage.refund_processing = 3
current_index JourneyStage.refund_completed = 4
current_index _ = 0

abbrev step : StepId → String → StepStatus → TimelineStep
step id label status = record { id = id; label = label; status = status }

-- The steps of `TIMELINE`, their statuses given by the index.
pub timeline_by : (ℕ → StepStatus) → List TimelineStep
timeline_by status =
    step StepId.request_received "Refund request received" (status 0)
    ∷ step StepId.preview_ready "Refund preview prepared" (status 1)
    ∷ step StepId.specialist_review "Specialist review" (status 2)
    ∷ step StepId.refund_processing "Refund processing" (status 3)
    ∷ step StepId.completed "Refund completed" (status 4)
    ∷ []

pub status_at : ℕ → ℕ → StepStatus
status_at current_step index =
    if ltb index current_step
    then StepStatus.completed
    else if index == current_step
    then StepStatus.current
    else StepStatus.pending

-- The timeline while photos are collected, or after that has expired.
pub evidence_timeline : StepStatus → StepStatus → List TimelineStep
evidence_timeline review rest =
    step StepId.request_received "Refund request received" StepStatus.completed
    ∷ step StepId.specialist_review "Photo evidence review" review
    ∷ step StepId.preview_ready "Refund preview prepared" rest
    ∷ step StepId.refund_processing "Refund processing" rest
    ∷ step StepId.completed "Refund completed" rest
    ∷ []

pub resolved_status : ℕ → StepStatus
resolved_status index =
    if index == 0 || index == 2 then StepStatus.completed else StepStatus.skipped

pub timeline_for : JourneyStage → Bool → List TimelineStep
unfolding timeline_by status_at current_index evidence_timeline resolved_status
timeline_for JourneyStage.preview_expired has_preview =
    step StepId.request_received "Refund request received" StepStatus.completed
    ∷ step StepId.preview_ready "Refund preview no longer available" StepStatus.skipped
    ∷ []
timeline_for JourneyStage.specialist_reviewing false =
    step StepId.request_received "Refund request received" StepStatus.completed
    ∷ step StepId.specialist_review "Specialist review" StepStatus.current
    ∷ step StepId.preview_ready "Refund preview prepared" StepStatus.pending
    ∷ step StepId.refund_processing "Refund processing" StepStatus.pending
    ∷ step StepId.completed "Refund completed" StepStatus.pending
    ∷ []
timeline_for JourneyStage.awaiting_customer_evidence has_preview =
    evidence_timeline StepStatus.current StepStatus.pending
timeline_for JourneyStage.awaiting_evidence_review has_preview =
    evidence_timeline StepStatus.current StepStatus.pending
timeline_for JourneyStage.evidence_collection_expired has_preview =
    evidence_timeline StepStatus.skipped StepStatus.skipped
timeline_for JourneyStage.request_resolved has_preview = timeline_by resolved_status
timeline_for stage has_preview = timeline_by (status_at (current_index stage))

pub takes_photos : JourneyStage → Bool
takes_photos JourneyStage.awaiting_customer_evidence = true
takes_photos JourneyStage.awaiting_evidence_review = true
takes_photos _ = false

abbrev preview_view : RefundPreview → PreviewView
preview_view p = record {
  preview_id = p.preview_id;
  amount = p.requested_amount;
  valid_until = p.valid_until;
}

abbrev has : Option RefundPreview → Bool
has none = false
has (some p) = true

unfoldable pub to_refund_journey_view :
    String → RefundWorkflowView → Option Bool → RefundJourneyView
unfolding journey_stage next_action_for timeline_for takes_photos
to_refund_journey_view workflow_id workflow can_upload =
    let stage = journey_stage workflow.stage in
    record {
      workflow_id = workflow_id;
      stage = stage;
      can_upload = elim can_upload [ none ↦ none | some b ↦ some (b && takes_photos stage) ];
      preview = elim workflow.preview [ none ↦ none | some p ↦ some (preview_view p) ];
      next_action = next_action_for stage;
      timeline = timeline_for stage (has workflow.preview);
    }
