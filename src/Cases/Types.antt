-- ===== src/Cases/Types.antt =====
-- The data of apps/services/human-operations/src/human-case.ts and the inputs and errors of
-- human-case-repository.ts.
use customer_service_os_lite.Common.{ℕ, Bool, true, false, Option, List, [], ◌∷◌, String}
use customer_service_os_lite.Common.Dates.{Timestamp}
use customer_service_os_lite.Common.Lists.{some_of}

pub data HumanCaseType : Type 0 where
  refund_approval refund_takeover refund_evidence_review : HumanCaseType

pub data HumanCaseStatus : Type 0 where
  is_open claimed decision_pending closed : HumanCaseStatus

pub data HumanDecision : Type 0 where
  approve reject resolve_takeover approve_exceptional_refund : HumanDecision

pub record RequestedAmount : Type 0 where
  pub amount_minor : ℕ
  pub currency : String

pub record RefundReviewPacket : Type 0 where
  pub order_reference : Option String
  pub selected_item_ids : Option (List String)
  pub requested_amount : Option RequestedAmount
  pub refund_reason : Option String
  pub policy_reason_codes : List String
  pub evidence_ids : List String
  pub knowledge_release_id : Option String
  pub policy_version : String

pub record HumanCase : Type 0 where
  pub case_id : String
  pub tenant_id : String
  pub environment_id : String
  pub workflow_id : String
  pub case_type : HumanCaseType
  pub status : HumanCaseStatus
  pub allowed_actions : List HumanDecision
  pub assigned_staff_id : Option String
  pub case_version : ℕ
  pub review_packet : RefundReviewPacket
  pub policy_version : String
  pub created_at : Timestamp
  pub updated_at : Timestamp
  pub decided_at : Option Timestamp

-- The audit events that the in-memory repository writes.
pub data AuditEventType : Type 0 where
  case_opened case_claimed decision_recorded case_closed : AuditEventType

pub data ActorType : Type 0 where
  workflow human : ActorType

pub record HumanCaseAuditEvent : Type 0 where
  pub event_id : String
  pub case_id : String
  pub event_type : AuditEventType
  pub occurred_at : Timestamp
  pub actor_type : ActorType
  pub actor_id : String
  pub case_version : ℕ
  pub details : List (String × String)

pub record HumanDecisionOutboxEvent : Type 0 where
  pub event_id : String
  pub case_id : String
  pub workflow_id : String
  pub tenant_id : String
  pub environment_id : String
  pub decision : HumanDecision
  pub decided_by : String
  pub decided_at : Timestamp
  pub reason_code : Option String
  pub note : Option String
  pub created_at : Timestamp

-- The last is the plain Error HUMAN_CASE_INDEX_INVARIANT.
pub data CaseError : Type 0 where
  case_not_found case_conflict stale_case_version idempotency_conflict index_invariant : CaseError

pub data EvidenceOutcome : Type 0 where
  evidence_review_completed evidence_collection_expired : EvidenceOutcome

pub record OpenHumanCaseInput : Type 0 where
  pub tenant_id : String
  pub environment_id : String
  pub workflow_id : String
  pub case_type : HumanCaseType
  pub review_packet : RefundReviewPacket
  pub policy_version : String

pub record CloseHumanCaseInput : Type 0 where
  pub case_id : String
  pub tenant_id : String
  pub environment_id : String
  pub workflow_id : String
  pub outcome : Option EvidenceOutcome

pub record ClaimHumanCaseInput : Type 0 where
  pub case_id : String
  pub tenant_id : String
  pub environment_id : String
  pub staff_id : String
  pub expected_case_version : ℕ
  pub idempotency_key : String

pub record ReassignHumanCaseInput : Type 0 where
  pub case_id : String
  pub tenant_id : String
  pub environment_id : String
  pub assigned_staff_id : String
  pub expected_case_version : ℕ
  pub idempotency_key : String

pub record DecideHumanCaseInput : Type 0 where
  pub case_id : String
  pub tenant_id : String
  pub environment_id : String
  pub staff_id : String
  pub decision : HumanDecision
  pub reason_code : Option String
  pub note : Option String
  pub expected_case_version : ℕ
  pub idempotency_key : String

unfoldable pub same_decision : HumanDecision → HumanDecision → Bool
same_decision HumanDecision.approve HumanDecision.approve = true
same_decision HumanDecision.reject HumanDecision.reject = true
same_decision HumanDecision.resolve_takeover HumanDecision.resolve_takeover = true
same_decision HumanDecision.approve_exceptional_refund HumanDecision.approve_exceptional_refund =
    true
same_decision _ _ = false

unfoldable pub same_case_type : HumanCaseType → HumanCaseType → Bool
same_case_type HumanCaseType.refund_approval HumanCaseType.refund_approval = true
same_case_type HumanCaseType.refund_takeover HumanCaseType.refund_takeover = true
same_case_type HumanCaseType.refund_evidence_review HumanCaseType.refund_evidence_review = true
same_case_type _ _ = false

unfoldable pub allowed_actions_for_case_type : HumanCaseType → List HumanDecision
allowed_actions_for_case_type HumanCaseType.refund_evidence_review = []
allowed_actions_for_case_type HumanCaseType.refund_approval =
    HumanDecision.approve ∷ HumanDecision.reject ∷ []
allowed_actions_for_case_type HumanCaseType.refund_takeover =
    HumanDecision.approve_exceptional_refund ∷ HumanDecision.resolve_takeover ∷ HumanDecision.reject
    ∷ []

-- `actions.includes(decision)`
unfoldable pub includes_decision : List HumanDecision → HumanDecision → Bool
unfolding same_decision
includes_decision actions decision = some_of (λ a. same_decision a decision) actions
