-- ===== src/Policy/Evaluate/Laws.antt =====
-- What a decision of `evaluateRefundPolicy` (apps/services/workflow-workers/src/refund-policy.ts)
-- says about its input.
use customer_service_os_lite.Common.{
  ◌+◌, ◌*◌, ◌<◌, false, ◌≡◌, refl, ◌↔◌, ◌≢◌, some, Result, ok, arith, not, str_eq, String, Option,
  none, err, true, inl, inr, Option-cases, str_eq_iff, throw_if, or_throw, ◌>>◌, ◌>>=◌, ap, ◌∙◌,
  sym, ℕ, Bool,
}
use customer_service_os_lite.Common.Int.{ℤ, pos_part}
use customer_service_os_lite.Common.Dates.{Timestamp, at, date_parse, to_iso_string}
use customer_service_os_lite.Policy.Types.{
  Money, PolicyEffect, RefundPolicyInput, RefundPolicyRelease, PolicyDecisionContext,
  RefundPolicyDecision, PolicyError,
}
use customer_service_os_lite.Policy.Canonical.{Platform, hash_policy_input}
use customer_service_os_lite.Policy.Rules.{
  Ruling, is_invalid_release, assert_policy_release, rule_on,
}
use customer_service_os_lite.Policy.Rules.Pieces.{IsUnopposed, IsComplete, longer}
use customer_service_os_lite.Policy.Rules.Outcome.{
  rule_on-Outcome, Grants, Outcome-Grants, Outcome-allow, Offers, Outcome-Offers, Outcome-deny_iff,
}
use customer_service_os_lite.Policy.Evaluate.{sort_fact_refs, decide, evaluate_refund_policy}

-- The chain of the evaluation over any parts: when it gives a decision, every part has succeeded.
chain_parts :
    (a : Result PolicyError (Unit {0})) (t : Bool) (o : Option ℕ) (h : Result PolicyError String)
    (u : ℕ → Option Timestamp) (r : Result PolicyError Ruling)
    (k : String → Timestamp → Ruling → RefundPolicyDecision) (d : RefundPolicyDecision)
    → (do
      a
      throw_if t PolicyError.policy_version_mismatch
      ms ← or_throw o PolicyError.invalid_decided_at
      hash ← h
      until ← or_throw (u ms) PolicyError.invalid_time_value
      ruling ← r
      ok (k hash until ruling))
      ≡ ok d
    → (ms : ℕ) × (hash : String) × (until : Timestamp) × (ruling : Ruling) × (a ≡ ok tt)
      × (t ≡ false)
      × (o ≡ some ms)
      × (h ≡ ok hash)
      × (u ms ≡ some until)
      × (r ≡ ok ruling)
      × (k hash until ruling ≡ d)
chain_parts (err e) t o h u r k d p = cc
chain_parts (ok tt) true o h u r k d p = cc
chain_parts (ok tt) false none h u r k d p = cc
chain_parts (ok tt) false (some ms) (err e) u r k d p = cc
chain_parts (ok tt) false (some ms) (ok hash) u (err e) k d p = elim (Option-cases (u ms)) [
  | inl n ↦ absurd (ground arith)
  | inr (until, n) ↦ absurd (ground arith)
]
chain_parts (ok tt) false (some ms) (ok hash) u (ok ruling) k d p = elim (Option-cases (u ms)) [
  | inl n ↦ absurd (ground arith)
  | inr (until, n) ↦ (ms, hash, until, ruling, refl, refl, refl, refl, n, refl, ground arith)
]

valid_of_ok :
    (release : RefundPolicyRelease)
    → assert_policy_release release ≡ ok tt
    → is_invalid_release release ≡ false
unfolding assert_policy_release
valid_of_ok release h = ground arith

true_of_not : (b : Bool) → not b ≡ false → b ≡ true
true_of_not true h = refl
true_of_not false h = cc

until_of :
    (ms : ℕ) (seconds : ℤ) (until : Timestamp)
    → to_iso_string (ms + pos_part seconds * 1000) ≡ some until
    → until ≡ at (ms + pos_part seconds * 1000)
until_of ms seconds until h = ground arith

module _ (platform : Platform) (input : RefundPolicyInput) (release : RefundPolicyRelease)
    (context : PolicyDecisionContext) (d : RefundPolicyDecision) where
  -- Where a decision comes from.
  pub record IsDecided : Type 0 where
    pub decided_ms : ℕ
    pub hash : String
    pub until : Timestamp
    pub ruling : Ruling
    pub valid : is_invalid_release release ≡ false
    pub version : input.policy_version ≡ release.policy_version
    pub parsed : date_parse context.decided_at ≡ some decided_ms
    pub hashed :
        hash_policy_input platform (record input { fact_refs = sort_fact_refs input.fact_refs })
        ≡ ok hash
    pub dated :
        to_iso_string (decided_ms + pos_part release.decision_validity_seconds * 1000) ≡ some until
    pub ruled : rule_on input release ≡ ok ruling
    pub same : decide release context (sort_fact_refs input.fact_refs) hash until ruling ≡ d

  pub evaluate-IsDecided : evaluate_refund_policy platform input release context ≡ ok d → IsDecided
  unfolding evaluate_refund_policy
  evaluate-IsDecided h =
      let (ms, hash, until, ruling, released, mismatch, parsed, hashed, dated, ruled, same) =
        chain_parts (assert_policy_release release)
          (not (str_eq input.policy_version release.policy_version)) (date_parse context.decided_at)
          (hash_policy_input platform (record input { fact_refs = sort_fact_refs input.fact_refs }))
          (λ ms. to_iso_string (ms + pos_part release.decision_validity_seconds * 1000))
          (rule_on input release) (decide release context (sort_fact_refs input.fact_refs)) d h in
      record {
        decided_ms = ms;
        hash = hash;
        until = until;
        ruling = ruling;
        valid = valid_of_ok release released;
        version =
            (str_eq_iff input.policy_version release.policy_version).0 (true_of_not _ mismatch);
        parsed = parsed;
        hashed = hashed;
        dated = dated;
        ruled = ruled;
        same = same;
      }

  -- A decision is an automatic approval exactly when the request meets every condition of `Grants`:
  -- all facts are there, nothing denies it, a required photo is accepted, and the amount, currency,
  -- destination and risk lie within the limits of the release.
  pub evaluate-allow_iff :
      evaluate_refund_policy platform input release context ≡ ok d
      → (d.effect ≡ PolicyEffect.allow) ↔ Grants input release
  unfolding decide
  evaluate-allow_iff h =
      let i = evaluate-IsDecided h in
      let o = rule_on-Outcome input release i.ruling i.ruled in
      let e : i.ruling.effect ≡ d.effect = ap (λ (x : RefundPolicyDecision). x.effect) i.same in
      (
        λ a. Outcome-Grants input release i.ruling o (e ∙ a),
        λ g. sym e ∙ Outcome-allow input release i.ruling o g,
      )

  -- A decision that can still lead to a refund (any but a denial and a request for facts) is about
  -- a positive amount, in the currency of the refundable balance and at most that balance, for a
  -- verified customer, a refundable transaction, a valid selection and a permitted reason, and
  -- after the photo that the release requires.
  pub evaluate-Offers :
      evaluate_refund_policy platform input release context ≡ ok d
      → d.effect ≢ PolicyEffect.deny
      → d.effect ≢ PolicyEffect.needs_facts
      → Offers input release
  unfolding decide
  evaluate-Offers h n m =
      let i = evaluate-IsDecided h in
      let e : i.ruling.effect ≡ d.effect = ap (λ (x : RefundPolicyDecision). x.effect) i.same in
      Outcome-Offers input release i.ruling (rule_on-Outcome input release i.ruling i.ruled)
        (λ a. n (sym e ∙ a)) (λ a. m (sym e ∙ a))

  -- A decision is a denial exactly when all facts are there and one of the reasons to deny applies.
  pub evaluate-deny_iff :
      evaluate_refund_policy platform input release context ≡ ok d
      → (d.effect ≡ PolicyEffect.deny) ↔ (
          IsComplete input
          × ((requested : Money) × (refundable : Money) × (input.request.requested_amount
                ≡ some requested)
              × (input.facts.refundable_amount ≡ some refundable)
              × ¬ IsUnopposed input release requested refundable))
  unfolding decide
  evaluate-deny_iff h =
      let i = evaluate-IsDecided h in
      let e : i.ruling.effect ≡ d.effect = ap (λ (x : RefundPolicyDecision). x.effect) i.same in
      let (to, from) =
        Outcome-deny_iff input release i.ruling (rule_on-Outcome input release i.ruling i.ruled) in
      (λ a. to (e ∙ a), λ g. sym e ∙ from g)

  -- A decision is pinned to the release's version, which is the version that the input names, and
  -- is valid from the instant of the decision to a later one, the release's validity away.
  pub evaluate_validity :
      evaluate_refund_policy platform input release context ≡ ok d
      → (d.policy_version ≡ release.policy_version)
        × (d.policy_version ≡ input.policy_version)
        × ((ms : ℕ) × (date_parse d.decided_at ≡ some ms)
            × (d.valid_until ≡ at (ms + pos_part release.decision_validity_seconds * 1000))
            × (ms < ms + pos_part release.decision_validity_seconds * 1000))
  unfolding decide
  evaluate_validity h =
      let i = evaluate-IsDecided h in
      let version : release.policy_version ≡ d.policy_version =
        ap (λ (x : RefundPolicyDecision). x.policy_version) i.same in
      let decided : context.decided_at ≡ d.decided_at =
        ap (λ (x : RefundPolicyDecision). x.decided_at) i.same in
      let ends : i.until ≡ d.valid_until =
        ap (λ (x : RefundPolicyDecision). x.valid_until) i.same in
      (
        sym version,
        sym version ∙ sym i.version,
        (
          i.decided_ms,
          ap date_parse (sym decided) ∙ i.parsed,
          sym ends ∙ until_of i.decided_ms release.decision_validity_seconds i.until i.dated,
          longer release i.valid i.decided_ms,
        ),
      )
