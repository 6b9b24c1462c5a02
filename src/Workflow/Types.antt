-- ===== src/Workflow/Types.antt =====
-- The types of apps/services/workflow-workers/src/refund-workflow.ts, the results of its activities
-- (refund-workflow-activities.ts, refund-evidence-client.ts), and the points at which it waits.
use customer_service_os_lite.Common.{ℕ, Bool, Option, none, some, List, [], String}
use customer_service_os_lite.Common.Dates.{Timestamp}
use customer_service_os_lite.Policy.Types.{RefundPolicyDecision}
use customer_service_os_lite.Journey.Types.{
  RefundProposal, RefundContext, AcceptedDamageEvidence, RefundPreview,
}

pub data Assessment : Type 0 where
  unreviewed accepted more_required : Assessment

pub record EvidenceSnapshot : Type 0 where
  pub case_id : String
  pub assessment : Assessment
  pub evidence_version : ℕ
  pub ready_count : ℕ
  pub processing_count : ℕ
  pub accepted : Option AcceptedDamageEvidence

pub record EvidenceRecovery : Type 0 where
  pub deadline : ℕ
  pub decision : RefundPolicyDecision

pub record Recovery : Type 0 where
  pub decision : RefundPolicyDecision
  pub preview : RefundPreview
  pub attempts_in_run : ℕ

-- The order reference and the access are only handed on to activities.
pub record RefundWorkflowRequest : Type 0 where
  pub proposal : RefundProposal
  pub policy_version : String
  pub evidence_recovery : Option EvidenceRecovery
  pub recovery : Option Recovery

pub record RefundCustomerConfirmation : Type 0 where
  pub preview_id : String
  pub accepted : Bool
  pub confirmed_at : Timestamp

pub data HumanAction : Type 0 where
  approve approve_exceptional_refund reject resolve_takeover : HumanAction

pub record RefundHumanDecision : Type 0 where
  pub decision : HumanAction
  pub decided_by : String
  pub decided_at : Timestamp
  pub reason_code : Option String

pub data ProviderOutcome : Type 0 where
  completed failed : ProviderOutcome

pub record RefundProviderOutcome : Type 0 where
  pub event_id : String
  pub provider_refund_id : String
  pub outcome : ProviderOutcome
  pub occurred_at : Timestamp

pub data Stage : Type 0 where
  evaluating awaiting_customer_evidence awaiting_evidence_review evidence_collection_expired
        awaiting_customer_confirmation confirmed cancelled needs_facts denied awaiting_approval
        human_takeover_required approved rejected takeover_resolved preview_invalidated
        refund_processing refund_succeeded refund_failed pending_reconciliation :
      Stage

pub record RefundWorkflowState : Type 0 where
  pub stage : Stage
  pub decision : Option RefundPolicyDecision
  pub preview : Option RefundPreview
  pub provider_refund_id : Option String

pub data ExecuteStatus : Type 0 where
  submitted succeeded failed pending_reconciliation : ExecuteStatus

pub record ExecuteRefundResult : Type 0 where
  pub status : ExecuteStatus
  pub provider_refund_id : Option String

pub data ReconcileStatus : Type 0 where
  succeeded failed processing not_found : ReconcileStatus

pub record ReconcileRefundResult : Type 0 where
  pub status : ReconcileStatus
  pub provider_refund_id : Option String

pub data EvidenceOutcome : Type 0 where
  evidence_review_completed evidence_collection_expired : EvidenceOutcome

pub data CaseType : Type 0 where
  refund_approval refund_takeover : CaseType

pub data CaseOutcome : Type 0 where
  approved rejected takeover_resolved : CaseOutcome

-- What the workflow asks its host to do. `open_case` carries the evidence version where the call is
-- `transitionRefundEvidence`; `make_preview` carries the case of an exceptional approval.
pub data Command : Type 0 where
  refresh_context : Command
  evaluate_policy : RefundContext → Option AcceptedDamageEvidence → Command
  open_evidence : RefundPolicyDecision → Command
  read_evidence : Command
  close_evidence : String → EvidenceOutcome → Command
  make_preview : RefundContext → RefundPolicyDecision → Option String → Command
  observe_confirmation : Command
  open_case :
      CaseType → List HumanAction → RefundPolicyDecision → Option RefundPreview → Option ℕ → Command
  close_case : String → CaseOutcome → RefundHumanDecision → Command
  execute_refund : RefundPreview → Command
  reconcile_refund : RefundPreview → Command
  start_timer : ℕ → Command

-- What can resume the workflow: the result of the activity that it awaits, its timer, or a signal.
-- An activity that fails for good throws at its `await`.
pub data Resolution : Type 0 where
  context_read : RefundContext → Resolution
  policy_decided : RefundPolicyDecision → Resolution
  evidence_read : EvidenceSnapshot → Resolution
  evidence_closed : Resolution
  preview_made : RefundPreview → Resolution
  confirmation_observed : Resolution
  case_opened : String → Resolution
  case_closed : Resolution
  refund_executed : ExecuteRefundResult → Resolution
  refund_reconciled : ReconcileRefundResult → Resolution
  timer_fired : Resolution
  activity_failed : Resolution

pub data Signal : Type 0 where
  confirm_refund : RefundCustomerConfirmation → Signal
  decide_refund : RefundHumanDecision → Signal
  record_provider_refund_outcome : RefundProviderOutcome → Signal

pub data Event : Type 0 where
  resolved : Resolution → Event
  signalled : Signal → Event

-- The ways to an offer; an exceptional one names the human case that approved it.
pub data Route : Type 0 where
  automatic approval : Route
  exceptional : String → Route

-- The awaits up to the decision that the `switch` looks at.
pub data IntakePoint : Type 0 where
  reading_context : IntakePoint
  evaluating : RefundContext → IntakePoint
  opening_evidence : RefundContext → RefundPolicyDecision → IntakePoint
  sleeping : RefundPolicyDecision → ℕ → ℕ → IntakePoint
  reading_evidence : RefundPolicyDecision → ℕ → ℕ → IntakePoint
  expiring : RefundPolicyDecision → IntakePoint
  refreshing : EvidenceSnapshot → IntakePoint
  reevaluating : EvidenceSnapshot → RefundContext → IntakePoint
  completing : EvidenceSnapshot → RefundContext → RefundPolicyDecision → IntakePoint

-- The awaits from the `switch` to an authorized refund. Each knows the accepted evidence, if any,
-- with the case that holds it.
pub data OfferPoint : Type 0 where
  previewing : Route → RefundPolicyDecision → OfferPoint
  confirming : Route → RefundPolicyDecision → RefundPreview → OfferPoint
  observing : Route → RefundPolicyDecision → RefundPreview → RefundCustomerConfirmation → OfferPoint
  withdrawing : RefundWorkflowState → OfferPoint
  opening_approval : RefundPolicyDecision → RefundPreview → OfferPoint
  awaiting_approval : RefundPolicyDecision → RefundPreview → String → OfferPoint
  closing_approval : RefundPolicyDecision → RefundPreview → RefundHumanDecision → OfferPoint
  opening_takeover : RefundPolicyDecision → OfferPoint
  awaiting_takeover : RefundPolicyDecision → String → OfferPoint
  closing_takeover : RefundPolicyDecision → String → RefundHumanDecision → OfferPoint
  refreshing_exception : RefundPolicyDecision → String → OfferPoint
  rereading_exception :
      RefundPolicyDecision → String → RefundContext → AcceptedDamageEvidence → OfferPoint
  redeciding_exception : String → RefundContext → OfferPoint

-- The awaits of `executeAuthorizedRefund` and of the two reconciliation loops.
pub data SettlePoint : Type 0 where
  checking_evidence : RefundPolicyDecision → RefundPreview → SettlePoint
  rechecking_context : RefundPolicyDecision → RefundPreview → SettlePoint
  executing : RefundPolicyDecision → RefundPreview → SettlePoint
  reconciling_outcome : RefundPolicyDecision → RefundPreview → Option String → SettlePoint
  awaiting_outcome : RefundPolicyDecision → RefundPreview → Option String → SettlePoint
  reconciling_pending : RefundPolicyDecision → RefundPreview → ℕ → SettlePoint
  sleeping_pending : RefundPolicyDecision → RefundPreview → ℕ → SettlePoint

pub data Point : Type 0 where
  intake : IntakePoint → Point
  offering : OfferPoint → Point
  settling : SettlePoint → Point
  finished : RefundWorkflowState → Point
  continued : RefundWorkflowRequest → Point
  thrown : Point

-- The workflow's variables: its point, the queried state, the evidence, what the signal handlers
-- have stored, and the signals that came before their handler was set.
pub record Config : Type 0 where
  pub point : Point
  pub state : RefundWorkflowState
  pub evidence : Option EvidenceSnapshot
  pub human_decision : Option RefundHumanDecision
  pub provider_outcome : Option RefundProviderOutcome
  pub early_confirmations : List RefundCustomerConfirmation
  pub early_decisions : List RefundHumanDecision
  pub early_outcomes : List RefundProviderOutcome

-- The answers of Temporal's `patched` to the workflow's three patch ids.
pub record Patches : Type 0 where
  pub expiry_timer : Bool
  pub expiry_confirmation : Bool
  pub observation_activity : Bool

abbrev pub Reaction : Type 0
Reaction = Config × List Command

abbrev pub just : Stage → RefundPolicyDecision → RefundWorkflowState
just stage decision = record {
  stage = stage;
  decision = some decision;
  preview = none;
  provider_refund_id = none;
}

abbrev pub with_preview : Stage → RefundPolicyDecision → RefundPreview → RefundWorkflowState
with_preview stage decision preview = record {
  stage = stage;
  decision = some decision;
  preview = some preview;
  provider_refund_id = none;
}

abbrev pub with_provider :
    Stage → RefundPolicyDecision → RefundPreview → Option String → RefundWorkflowState
with_provider stage decision preview provider = record {
  stage = stage;
  decision = some decision;
  preview = some preview;
  provider_refund_id = provider;
}

-- `state = next; return state;`
abbrev pub finish : Config → RefundWorkflowState → Reaction
finish c next = (record c { point = Point.finished next; state = next }, [])

-- `evidence?.accepted`
abbrev pub accepted_of : Option EvidenceSnapshot → Option AcceptedDamageEvidence
accepted_of none = none
accepted_of (some e) = e.accepted
