-- ===== src/Journey/Types.antt =====
-- The types of apps/services/workflow-workers/src/refund-policy-input.ts, refund-preview.ts and
-- refund-evidence-client.ts that pass between the steps.
use customer_service_os_lite.Common.{ℕ, Bool, Option, List, String}
use customer_service_os_lite.Common.Int.{ℤ}
use customer_service_os_lite.Common.Dates.{Timestamp}
use customer_service_os_lite.Policy.Types.{Money, Scope}

pub record RefundIntent : Type 0 where
  pub order_id : String
  pub reason_code : String
  pub scope : Scope
  pub item_ids : List String
  pub requested_amount : Option Money

pub record RefundProposal : Type 0 where
  pub proposal_id : String
  pub intent : RefundIntent

pub data SelectionScope : Type 0 where
  full_order selected_items : SelectionScope

pub record Selection : Type 0 where
  pub scope : SelectionScope
  pub item_ids : List String

pub record ContextSource : Type 0 where
  pub provider : String
  pub order_id : String
  pub facts_version : String

-- `customerVerified` is the constant true and `refundDestination` the constant
-- ORIGINAL_PAYMENT_METHOD.
pub record ContextFacts : Type 0 where
  pub transaction_refundable : Bool
  pub item_selection_valid : Bool
  pub prior_refund_count : ℤ
  pub refundable_amount : Money

pub record RefundContext : Type 0 where
  pub observation_id : String
  pub observed_at : Timestamp
  pub source : ContextSource
  pub selection : Selection
  pub facts : ContextFacts

pub record AcceptedDamageEvidence : Type 0 where
  pub evidence_version : ℕ
  pub assessment_id : String
  pub manifest_hash : String
  pub observed_at : Timestamp

-- The destination is the constant ORIGINAL_PAYMENT_METHOD.
pub record RefundPreview : Type 0 where
  pub preview_id : String
  pub created_at : Timestamp
  pub proposal_id : String
  pub order_id : String
  pub selection : Selection
  pub requested_amount : Money
  pub policy_version : String
  pub decision_id : String
  pub input_facts_hash : String
  pub valid_until : Timestamp

-- The kind and the decision of an authorization are constants.
pub record RefundPreviewAuthorization : Type 0 where
  pub case_id : String
