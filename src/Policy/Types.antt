-- ===== src/Policy/Types.antt =====
-- The types of apps/services/workflow-workers/src/refund-policy.ts, refund-risk.ts and of
-- packages/refund-policy (the release).
-- A text that the code only ever takes from a fixed list is a constructor; free text is a String.
use customer_service_os_lite.Common.{Bool, Option, List, String}
use customer_service_os_lite.Common.Int.{ℤ}
use customer_service_os_lite.Common.Dates.{Timestamp}

pub record Money : Type 0 where
  pub amount_minor : ℤ
  pub currency : String

pub record FactRef : Type 0 where
  pub fact_id : String
  pub fact_type : String
  pub source_version : String
  pub observed_at : Timestamp

pub data Scope : Type 0 where
  full_order selected_items unspecified : Scope

pub data RefundDestination : Type 0 where
  original_payment_method store_credit other : RefundDestination

pub record PolicyRequest : Type 0 where
  pub proposal_id : String
  pub order_id : String
  pub reason_code : String
  pub scope : Scope
  pub item_ids : List String
  pub requested_amount : Option Money

pub record PolicyFacts : Type 0 where
  pub customer_verified : Option Bool
  pub transaction_refundable : Option Bool
  pub item_selection_valid : Option Bool
  pub prior_refund_count : Option ℤ
  pub refundable_amount : Option Money
  pub refund_destination : Option RefundDestination

-- The fields `schemaVersion` and `journeyType` are the constants "1" and "REFUND".
pub record RefundPolicyInput : Type 0 where
  pub policy_version : String
  pub request : PolicyRequest
  pub facts : PolicyFacts
  pub fact_refs : List FactRef

pub record PolicyDecisionContext : Type 0 where
  pub decision_id : String
  pub decided_at : Timestamp

pub data PolicyEffect : Type 0 where
  allow approval_required takeover_required deny needs_facts : PolicyEffect

pub data MissingFact : Type 0 where
  refund_reason item_selection prior_refund_history requested_amount refundable_amount
        refund_destination customer_verification transaction_refundability damage_photo :
      MissingFact

-- The reason codes that the evaluation gives.
pub data ReasonCode : Type 0 where
  missing_required_facts customer_not_verified transaction_not_refundable
        refund_reason_not_permitted item_selection_not_refundable refund_amount_must_be_positive
        refund_currency_mismatch refund_amount_exceeds_refundable_balance
        damage_photo_review_required unsupported_currency_requires_takeover
        non_standard_destination_requires_takeover high_risk_refund_requires_takeover
        amount_exceeds_approval_threshold elevated_risk_requires_approval
        amount_exceeds_auto_approval_threshold within_automatic_refund_threshold :
      ReasonCode

-- The obligation of an approval has the one parameter approvalClass = "REFUND_REVIEW".
pub data PolicyObligation : Type 0 where
  require_human_approval require_takeover : PolicyObligation

pub record RefundPolicyDecision : Type 0 where
  pub decision_id : String
  pub effect : PolicyEffect
  pub policy_version : String
  pub input_facts_hash : String
  pub fact_refs : List FactRef
  pub reason_codes : List ReasonCode
  pub obligations : List PolicyObligation
  pub missing_facts : List MissingFact
  pub decided_at : Timestamp
  pub valid_until : Timestamp

-- `requireDamagePhoto` is optional in the catalog, and absent reads as false.
pub record RefundPolicyRelease : Type 0 where
  pub policy_version : String
  pub supported_currency : String
  pub automatic_maximum_minor : ℤ
  pub approval_maximum_minor : ℤ
  pub elevated_risk_prior_refund_count : ℤ
  pub high_risk_prior_refund_count : ℤ
  pub decision_validity_seconds : ℤ
  pub permitted_reason_codes : List String
  pub require_damage_photo : Bool

-- The errors that the evaluation throws; the last is `toISOString`'s RangeError.
pub data PolicyError : Type 0 where
  policy_version_mismatch invalid_decided_at missing_amount_invariant invalid_policy_release
        invalid_money_amount invalid_prior_refund_count non_canonical_policy_number
        invalid_time_value :
      PolicyError

pub data RefundRiskClass : Type 0 where
  low elevated high : RefundRiskClass
