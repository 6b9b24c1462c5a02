-- ===== src/Policy/Rules.antt =====
-- The rules of apps/services/workflow-workers/src/refund-policy.ts and refund-risk.ts, in the order
-- in which the code tries them.
pub mod Pieces
pub mod Outcome
use customer_service_os_lite.Common.{
  ℕ, Bool, true, false, not, ◌&&◌, ◌||◌, Option, none, some, List, [], ◌∷◌, ◌++◌, String, str_eq,
  includes, codes, leb, ◌==◌, is_none, if◌then◌else◌, Result, ok, err, ◌>>=◌, ◌>>◌, throw_if,
}
use customer_service_os_lite.Common.Int.{ℤ, pos, ltb_ℤ, leb_ℤ, is_safe_integer}
use customer_service_os_lite.Common.Lists.{is_empty, length, every, some_of}
use customer_service_os_lite.Policy.Types.{
  Money, FactRef, Scope, RefundDestination, original_payment_method, PolicyEffect, MissingFact,
  ReasonCode, PolicyObligation, require_human_approval, require_takeover, RefundPolicyInput,
  RefundPolicyRelease, PolicyError, RefundRiskClass,
}

-- `array.push` under a test
abbrev pub push_if {ℓ} : {A : Type ℓ} → Bool → A → List A
push_if true a = a ∷ []
push_if false a = []

pub is_unspecified : Scope → Bool
is_unspecified Scope.unspecified = true
is_unspecified _ = false

unfoldable pub find_missing_facts : RefundPolicyInput → List MissingFact
unfolding is_unspecified
find_missing_facts input =
    push_if (is_none input.facts.customer_verified) MissingFact.customer_verification
    ++ (push_if (is_none input.facts.transaction_refundable) MissingFact.transaction_refundability
        ++ (push_if (str_eq input.request.reason_code "UNSPECIFIED") MissingFact.refund_reason
            ++ (push_if
                  (is_unspecified input.request.scope || is_none input.facts.item_selection_valid)
                  MissingFact.item_selection
                ++ (push_if (is_none input.request.requested_amount) MissingFact.requested_amount
                    ++ (push_if (is_none input.facts.refundable_amount)
                          MissingFact.refundable_amount
                        ++ (push_if (is_none input.facts.refund_destination)
                              MissingFact.refund_destination
                            ++ push_if (is_none input.facts.prior_refund_count)
                                MissingFact.prior_refund_history))))))

-- The test of `assertPolicyRelease`.
unfoldable pub is_invalid_release : RefundPolicyRelease → Bool
is_invalid_release release =
    not (is_safe_integer release.automatic_maximum_minor)
    || (not (is_safe_integer release.approval_maximum_minor)
        || (ltb_ℤ release.automatic_maximum_minor (pos 0)
            || (ltb_ℤ release.approval_maximum_minor release.automatic_maximum_minor
                || (not (is_safe_integer release.elevated_risk_prior_refund_count)
                    || (not (is_safe_integer release.high_risk_prior_refund_count)
                        || (ltb_ℤ release.elevated_risk_prior_refund_count (pos 1)
                            || (leb_ℤ release.high_risk_prior_refund_count
                                  release.elevated_risk_prior_refund_count
                                || (not (is_safe_integer release.decision_validity_seconds)
                                    || (leb_ℤ release.decision_validity_seconds (pos 0)
                                        || is_empty release.permitted_reason_codes)))))))))

unfoldable pub assert_policy_release : RefundPolicyRelease → Result PolicyError (Unit {0})
assert_policy_release release =
    throw_if (is_invalid_release release) PolicyError.invalid_policy_release

pub assert_money : Money → Result PolicyError (Unit {0})
assert_money money =
    throw_if (not (is_safe_integer money.amount_minor) || ltb_ℤ money.amount_minor (pos 0))
      PolicyError.invalid_money_amount

-- `none` is `undefined`, which is no safe integer.
unfoldable pub assess_refund_risk :
    Option ℤ → RefundPolicyRelease → Result PolicyError RefundRiskClass
assess_refund_risk none release = err PolicyError.invalid_prior_refund_count
assess_refund_risk (some prior_refund_count) release =
    throw_if (not (is_safe_integer prior_refund_count) || ltb_ℤ prior_refund_count (pos 0))
      PolicyError.invalid_prior_refund_count
    >> ok (
        if leb_ℤ release.high_risk_prior_refund_count prior_refund_count
        then RefundRiskClass.high
        else if leb_ℤ release.elevated_risk_prior_refund_count prior_refund_count
        then RefundRiskClass.elevated
        else RefundRiskClass.low)

-- `[a-f0-9]`
pub is_hex : ℕ → Bool
is_hex c = leb b'a' c && leb c b'f' || leb b'0' c && leb c b'9'

-- What is left of a list of code points behind a prefix.
pub after_prefix : List ℕ → List ℕ → Option (List ℕ)
after_prefix [] cs = some cs
after_prefix (p ∷ ps) [] = none
after_prefix (p ∷ ps) (c ∷ cs) = let rest = after_prefix ps cs in if p == c then rest else none

pub is_hex_digest : Option (List ℕ) → Bool
is_hex_digest none = false
is_hex_digest (some cs) = every is_hex cs && length cs == 64

-- `/^sha256:[a-f0-9]{64}$/.test(text)`
pub is_sha256_text : String → Bool
unfolding is_hex after_prefix is_hex_digest
is_sha256_text text = is_hex_digest (after_prefix (codes "sha256:") (codes text))

pub is_accepted_evidence_ref : FactRef → Bool
unfolding is_sha256_text
is_accepted_evidence_ref ref =
    str_eq ref.fact_type "ACCEPTED_DAMAGE_EVIDENCE" && is_sha256_text ref.source_version

unfoldable pub lacks_damage_photo : RefundPolicyInput → RefundPolicyRelease → Bool
unfolding is_accepted_evidence_ref
lacks_damage_photo input release =
    release.require_damage_photo
    && (str_eq input.request.reason_code "DAMAGED"
        && not (some_of is_accepted_evidence_ref input.fact_refs))

-- The arguments that the evaluation hands to its local function `decide`.
pub record Ruling : Type 0 where
  pub effect : PolicyEffect
  pub reason_codes : List ReasonCode
  pub obligations : List PolicyObligation
  pub missing_facts : List MissingFact

abbrev pub denied : ReasonCode → Ruling
denied reason = record {
  effect = PolicyEffect.deny;
  reason_codes = reason ∷ [];
  obligations = [];
  missing_facts = [];
}

abbrev pub asks_facts : ReasonCode → List MissingFact → Ruling
asks_facts reason missing = record {
  effect = PolicyEffect.needs_facts;
  reason_codes = reason ∷ [];
  obligations = [];
  missing_facts = missing;
}

pub is_high : RefundRiskClass → Bool
is_high RefundRiskClass.high = true
is_high _ = false

pub is_elevated : RefundRiskClass → Bool
is_elevated RefundRiskClass.elevated = true
is_elevated _ = false

-- `destination !== "ORIGINAL_PAYMENT_METHOD"`
pub is_non_standard : Option RefundDestination → Bool
is_non_standard (some original_payment_method) = false
is_non_standard _ = true

unfoldable pub takeover_reasons :
    RefundPolicyInput → RefundPolicyRelease → Money → RefundRiskClass → List ReasonCode
unfolding is_high is_non_standard
takeover_reasons input release requested risk =
    push_if (not (str_eq requested.currency release.supported_currency))
      ReasonCode.unsupported_currency_requires_takeover
    ++ (push_if (is_non_standard input.facts.refund_destination)
          ReasonCode.non_standard_destination_requires_takeover
        ++ (push_if (is_high risk) ReasonCode.high_risk_refund_requires_takeover
            ++ push_if (ltb_ℤ release.approval_maximum_minor requested.amount_minor)
                ReasonCode.amount_exceeds_approval_threshold))

unfoldable pub approval_reasons : RefundPolicyRelease → Money → RefundRiskClass → List ReasonCode
unfolding is_elevated
approval_reasons release requested risk =
    push_if (is_elevated risk) ReasonCode.elevated_risk_requires_approval
    ++ push_if (ltb_ℤ release.automatic_maximum_minor requested.amount_minor)
        ReasonCode.amount_exceeds_auto_approval_threshold

-- The end of the evaluation, from the takeover reasons on.
unfoldable pub route : List ReasonCode → List ReasonCode → Ruling
route (t ∷ ts) approvals = record {
  effect = PolicyEffect.takeover_required;
  reason_codes = t ∷ ts;
  obligations = require_takeover ∷ [];
  missing_facts = [];
}
route [] (a ∷ as') = record {
  effect = PolicyEffect.approval_required;
  reason_codes = a ∷ as';
  obligations = require_human_approval ∷ [];
  missing_facts = [];
}
route [] [] = record {
  effect = PolicyEffect.allow;
  reason_codes = ReasonCode.within_automatic_refund_threshold ∷ [];
  obligations = [];
  missing_facts = [];
}

pub is_some_false : Option Bool → Bool
is_some_false (some false) = true
is_some_false _ = false

-- The first of the reasons to deny that applies.
unfoldable pub denial : RefundPolicyInput → RefundPolicyRelease → Money → Money → Option ReasonCode
unfolding is_some_false
denial input release requested refundable =
    if is_some_false input.facts.customer_verified
    then some ReasonCode.customer_not_verified
    else if is_some_false input.facts.transaction_refundable
    then some ReasonCode.transaction_not_refundable
    else if not (includes release.permitted_reason_codes input.request.reason_code)
    then some ReasonCode.refund_reason_not_permitted
    else if is_some_false input.facts.item_selection_valid
    then some ReasonCode.item_selection_not_refundable
    else if leb_ℤ requested.amount_minor (pos 0) && leb_ℤ (pos 0) requested.amount_minor
    then some ReasonCode.refund_amount_must_be_positive
    else if not (str_eq requested.currency refundable.currency)
    then some ReasonCode.refund_currency_mismatch
    else if ltb_ℤ refundable.amount_minor requested.amount_minor
    then some ReasonCode.refund_amount_exceeds_refundable_balance
    else none

-- The rules from the photo requirement on, reached when nothing denies the request.
unfoldable pub weigh : RefundPolicyInput → RefundPolicyRelease → Money → Result PolicyError Ruling
unfolding lacks_damage_photo assess_refund_risk takeover_reasons approval_reasons route
weigh input release requested =
    if lacks_damage_photo input release
    then ok (asks_facts ReasonCode.damage_photo_review_required (MissingFact.damage_photo ∷ []))
    else do
      risk ← assess_refund_risk input.facts.prior_refund_count release
      ok (
          route (takeover_reasons input release requested risk)
            (approval_reasons release requested risk))

unfoldable pub judge :
    RefundPolicyInput → RefundPolicyRelease → Money → Money → Result PolicyError Ruling
unfolding denial weigh
judge input release requested refundable = elim (denial input release requested refundable) [
  | some reason ↦ ok (denied reason)
  | none ↦ weigh input release requested
]

-- The amounts, which the code narrows from `undefined` before the first rule.
unfoldable pub with_amounts :
    RefundPolicyInput
    → RefundPolicyRelease
    → Option Money
    → Option Money
    → Result PolicyError Ruling
unfolding assert_money judge
with_amounts input release (some requested) (some refundable) = do
  assert_money requested
  assert_money refundable
  judge input release requested refundable
with_amounts _ _ _ _ = err PolicyError.missing_amount_invariant

unfoldable pub rule_on : RefundPolicyInput → RefundPolicyRelease → Result PolicyError Ruling
unfolding find_missing_facts with_amounts
rule_on input release =
    let missing = find_missing_facts input in
    if not (is_empty missing)
    then ok (asks_facts ReasonCode.missing_required_facts missing)
    else with_amounts input release input.request.requested_amount input.facts.refundable_amount
