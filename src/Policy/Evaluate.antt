-- ===== src/Policy/Evaluate.antt =====
-- `evaluateRefundPolicy` of apps/services/workflow-workers/src/refund-policy.ts.
pub mod Laws
use customer_service_os_lite.Common.{
  ◌+◌, ◌*◌, Bool, not, List, String, str_eq, Result, ok, ◌>>=◌, ◌>>◌, throw_if, or_throw,
}
use customer_service_os_lite.Common.Int.{pos_part}
use customer_service_os_lite.Common.Sort.{leb_string, sort_by}
use customer_service_os_lite.Common.Dates.{Timestamp, date_parse, to_iso_string}
use customer_service_os_lite.Policy.Types.{
  FactRef, RefundPolicyInput, RefundPolicyRelease, PolicyDecisionContext, RefundPolicyDecision,
  PolicyError,
}
use customer_service_os_lite.Policy.Canonical.{Platform, hash_policy_input}
use customer_service_os_lite.Policy.Rules.{Ruling, assert_policy_release, rule_on}

-- The comparator of the sort of the fact references, by `compareCodePoints`.
abbrev pub fact_ref_le : FactRef → FactRef → Bool
fact_ref_le left right = leb_string left.fact_id right.fact_id

unfoldable pub sort_fact_refs : List FactRef → List FactRef
unfolding sort_by leb_string
sort_fact_refs refs = sort_by fact_ref_le refs

-- The local function `decide`, on the values that it closes over.
unfoldable pub decide :
    RefundPolicyRelease
    → PolicyDecisionContext
    → List FactRef
    → String
    → Timestamp
    → Ruling
    → RefundPolicyDecision
decide release context fact_refs hash valid_until ruling = record {
  decision_id = context.decision_id;
  effect = ruling.effect;
  policy_version = release.policy_version;
  input_facts_hash = hash;
  fact_refs = fact_refs;
  reason_codes = ruling.reason_codes;
  obligations = ruling.obligations;
  missing_facts = ruling.missing_facts;
  decided_at = context.decided_at;
  valid_until = valid_until;
}

module _ (platform : Platform) where
  -- The validity is positive behind the first guard, so its natural part is the number itself.
  unfoldable pub evaluate_refund_policy :
      RefundPolicyInput
      → RefundPolicyRelease
      → PolicyDecisionContext
      → Result PolicyError RefundPolicyDecision
  unfolding sort_fact_refs decide
  evaluate_refund_policy input release context = do
    assert_policy_release release
    throw_if (not (str_eq input.policy_version release.policy_version))
        PolicyError.policy_version_mismatch
    decided_ms ← or_throw (date_parse context.decided_at) PolicyError.invalid_decided_at
    let fact_refs = sort_fact_refs input.fact_refs
    hash ← hash_policy_input platform (record input { fact_refs = fact_refs })
    valid_until ←
        or_throw (to_iso_string (decided_ms + pos_part release.decision_validity_seconds * 1000))
          PolicyError.invalid_time_value
    ruling ← rule_on input release
    ok (decide release context fact_refs hash valid_until ruling)
