-- ===== src/Policy/Rules/Pieces.antt =====
-- What the rules of apps/services/workflow-workers/src/refund-policy.ts decide, piece by piece.
use customer_service_os_lite.Common.{
  ℕ, ◌+◌, ◌*◌, ◌<◌, true, false, ◌≡◌, refl, ◌↔◌, Option, none, some, List, [], ◌∷◌, ◌≢◌, str_eq,
  includes, ok, arith,
}
use customer_service_os_lite.Common.Int.{ℤ, pos, pos_part, ◌≤ℤ◌, ◌<ℤ◌}
use customer_service_os_lite.Policy.Types.{
  Money, original_payment_method, PolicyEffect, ReasonCode, RefundPolicyInput, RefundPolicyRelease,
  RefundRiskClass,
}
use customer_service_os_lite.Policy.Rules.{
  is_unspecified, find_missing_facts, is_invalid_release, assess_refund_risk, takeover_reasons,
  approval_reasons, route, denial,
}

-- Every fact that the evaluation asks for is there.
pub record IsComplete (input : RefundPolicyInput) : Type 0 where
  pub verified : input.facts.customer_verified ≢ none
  pub refundable : input.facts.transaction_refundable ≢ none
  pub reason : str_eq input.request.reason_code "UNSPECIFIED" ≡ false
  pub scope : is_unspecified input.request.scope ≡ false
  pub selection : input.facts.item_selection_valid ≢ none
  pub requested : input.request.requested_amount ≢ none
  pub available : input.facts.refundable_amount ≢ none
  pub destination : input.facts.refund_destination ≢ none
  pub history : input.facts.prior_refund_count ≢ none

pub find_missing_facts-eq-nil_iff :
    (input : RefundPolicyInput) → (find_missing_facts input ≡ []) ↔ IsComplete input
unfolding find_missing_facts
find_missing_facts-eq-nil_iff input = (λ h. ground arith, λ h. ground arith)

-- Nothing denies the request.
pub record IsUnopposed (input : RefundPolicyInput) (release : RefundPolicyRelease)
    (requested refundable : Money) : Type 0 where
  pub verified : input.facts.customer_verified ≢ some false
  pub transaction : input.facts.transaction_refundable ≢ some false
  pub permitted : includes release.permitted_reason_codes input.request.reason_code ≡ true
  pub selection : input.facts.item_selection_valid ≢ some false
  pub positive : requested.amount_minor ≢ pos 0
  pub currency : str_eq requested.currency refundable.currency ≡ true
  pub covered : requested.amount_minor ≤ℤ refundable.amount_minor

pub denial-eq-none_iff :
    (input : RefundPolicyInput) (release : RefundPolicyRelease) (requested refundable : Money)
    → (denial input release requested refundable ≡ none)
      ↔ IsUnopposed input release requested refundable
unfolding denial
denial-eq-none_iff input release requested refundable = (λ h. ground arith, λ h. ground arith)

-- What the takeover rules leave to the approval rules.
pub record IsStandard (input : RefundPolicyInput) (release : RefundPolicyRelease)
    (requested : Money) (risk : RefundRiskClass) : Type 0 where
  pub currency : str_eq requested.currency release.supported_currency ≡ true
  pub destination : input.facts.refund_destination ≡ some original_payment_method
  pub not_high : risk ≢ RefundRiskClass.high
  pub bounded : requested.amount_minor ≤ℤ release.approval_maximum_minor

pub takeover_reasons-eq-nil_iff :
    (input : RefundPolicyInput) (release : RefundPolicyRelease) (requested : Money)
    (risk : RefundRiskClass)
    → (takeover_reasons input release requested risk ≡ []) ↔ IsStandard input release requested risk
unfolding takeover_reasons
takeover_reasons-eq-nil_iff input release requested risk = (λ h. ground arith, λ h. ground arith)

pub approval_reasons-eq-nil_iff :
    (release : RefundPolicyRelease) (requested : Money) (risk : RefundRiskClass)
    → (approval_reasons release requested risk ≡ []) ↔ (
        (risk ≢ RefundRiskClass.elevated)
        × (requested.amount_minor ≤ℤ release.automatic_maximum_minor))
unfolding approval_reasons
approval_reasons-eq-nil_iff release requested risk = (λ h. ground arith, λ h. ground arith)

pub route-allow_iff :
    (ts as' : List ReasonCode)
    → ((route ts as').effect ≡ PolicyEffect.allow) ↔ ((ts ≡ []) × (as' ≡ []))
unfolding route
route-allow_iff ts as' = (λ h. ground arith, λ h. ground arith)

pub route-ne-deny : (ts as' : List ReasonCode) → (route ts as').effect ≢ PolicyEffect.deny
unfolding route
route-ne-deny (t ∷ ts) as' h = cc
route-ne-deny [] (a ∷ as') h = cc
route-ne-deny [] [] h = cc

-- The risk class by the number of prior refunds.
pub record HasRisk (count : Option ℤ) (release : RefundPolicyRelease) (risk : RefundRiskClass)
    : Type 0 where
  pub prior : ℤ
  pub known : count ≡ some prior
  pub natural : pos 0 ≤ℤ prior
  pub is_high : (risk ≡ RefundRiskClass.high) ↔ (release.high_risk_prior_refund_count ≤ℤ prior)
  pub is_low : (risk ≡ RefundRiskClass.low) ↔ (
      (prior <ℤ release.high_risk_prior_refund_count)
      × (prior <ℤ release.elevated_risk_prior_refund_count))

pub assess_refund_risk-HasRisk :
    (count : Option ℤ) (release : RefundPolicyRelease) (risk : RefundRiskClass)
    → assess_refund_risk count release ≡ ok risk
    → HasRisk count release risk
unfolding assess_refund_risk
assess_refund_risk-HasRisk none release risk h = cc
assess_refund_risk-HasRisk (some n) release risk h = record {
  prior = n;
  known = refl;
  natural = ground arith;
  is_high = (λ e. ground arith, λ e. ground arith);
  is_low = (λ e. ground arith, λ e. ground arith);
}

-- A valid release gives every decision some time.
pub longer :
    (release : RefundPolicyRelease)
    → is_invalid_release release ≡ false
    → (ms : ℕ) → ms < ms + pos_part release.decision_validity_seconds * 1000
unfolding is_invalid_release
longer release h ms = ground arith
