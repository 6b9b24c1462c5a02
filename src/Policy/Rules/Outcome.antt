-- ===== src/Policy/Rules/Outcome.antt =====
-- Which ruling `rule_on` gives, by the facts of the input (refund-policy.ts, from the missing facts
-- to the end of `evaluateRefundPolicy`).
use customer_service_os_lite.Common.{
  true, false, ◌≡◌, refl, ◌↔◌, inl, inr, Option, none, some, [], ◌∷◌, ◌≢◌, str_eq, ok, arith,
  Bool-cases, Option-cases, ◌>>◌, >>=-eq-ok, sym, ◌∙◌, ap,
}
use customer_service_os_lite.Common.Int.{ℤ, pos, ◌≤ℤ◌, ◌<ℤ◌}
use customer_service_os_lite.Common.Lists.{is_empty}
use customer_service_os_lite.Policy.Types.{
  Money, original_payment_method, PolicyEffect, MissingFact, ReasonCode, RefundPolicyInput,
  RefundPolicyRelease, RefundRiskClass,
}
use customer_service_os_lite.Policy.Rules.{
  find_missing_facts, assert_money, assess_refund_risk, lacks_damage_photo, Ruling, denied,
  asks_facts, takeover_reasons, approval_reasons, route, denial, judge, with_amounts, rule_on,
}
use customer_service_os_lite.Policy.Rules.Pieces.{
  IsComplete, find_missing_facts-eq-nil_iff, IsUnopposed, denial-eq-none_iff, IsStandard,
  takeover_reasons-eq-nil_iff, approval_reasons-eq-nil_iff, route-allow_iff, route-ne-deny,
  assess_refund_risk-HasRisk,
}

-- The four ways in which a ruling comes about.
pub data Outcome (input : RefundPolicyInput) (release : RefundPolicyRelease) (ruling : Ruling)
    : Type 0 where
  incomplete :
      find_missing_facts input ≢ []
      → ruling ≡ asks_facts ReasonCode.missing_required_facts (find_missing_facts input)
      → Outcome input release ruling
  opposed :
      (requested refundable : Money) (reason : ReasonCode)
      → IsComplete input
      → input.request.requested_amount ≡ some requested
      → input.facts.refundable_amount ≡ some refundable
      → denial input release requested refundable ≡ some reason
      → ruling ≡ denied reason
      → Outcome input release ruling
  unseen :
      (requested refundable : Money)
      → IsComplete input
      → input.request.requested_amount ≡ some requested
      → input.facts.refundable_amount ≡ some refundable
      → IsUnopposed input release requested refundable
      → lacks_damage_photo input release ≡ true
      → ruling ≡ asks_facts ReasonCode.damage_photo_review_required (MissingFact.damage_photo ∷ [])
      → Outcome input release ruling
  weighed :
      (requested refundable : Money) (risk : RefundRiskClass)
      → IsComplete input
      → input.request.requested_amount ≡ some requested
      → input.facts.refundable_amount ≡ some refundable
      → pos 0 ≤ℤ requested.amount_minor
      → IsUnopposed input release requested refundable
      → lacks_damage_photo input release ≡ false
      → assess_refund_risk input.facts.prior_refund_count release ≡ ok risk
      → ruling
        ≡ route
            (takeover_reasons input release requested risk)
            (approval_reasons release requested risk)
      → Outcome input release ruling

assert_money-natural : (m : Money) {u : Unit {0}} → assert_money m ≡ ok u → pos 0 ≤ℤ m.amount_minor
unfolding assert_money
assert_money-natural m h = ground arith

module _ (input : RefundPolicyInput) (release : RefundPolicyRelease) (ruling : Ruling) where
  module _ (requested refundable : Money) (complete : IsComplete input)
      (asked : input.request.requested_amount ≡ some requested)
      (available : input.facts.refundable_amount ≡ some refundable)
      (natural : pos 0 ≤ℤ requested.amount_minor) where
    judge-Outcome :
        judge input release requested refundable ≡ ok ruling → Outcome input release ruling
    unfolding judge
    judge-Outcome h = elim (Option-cases (denial input release requested refundable)) [
      | inr (reason, e) ↦
          Outcome.opposed requested refundable reason complete asked available e (ground arith)
      | inl e ↦ elim (Bool-cases (lacks_damage_photo input release)) [
        | inl lacking ↦
            Outcome.unseen requested refundable complete asked available
              ((denial-eq-none_iff input release requested refundable).0 e) lacking (ground arith)
        | inr seen ↦
            let (risk, assessed, routed) =
              >>=-eq-ok (assess_refund_risk input.facts.prior_refund_count release)
                (λ risk. ok (
                  route (takeover_reasons input release requested risk)
                    (approval_reasons release requested risk)))
                {c = ruling} (ground arith) in
            Outcome.weighed requested refundable risk complete asked available natural
              ((denial-eq-none_iff input release requested refundable).0 e) seen assessed
              (ground arith)
      ]
    ]

  with_amounts-Outcome :
      IsComplete input
      → (asked available : Option Money) → input.request.requested_amount ≡ asked
      → input.facts.refundable_amount ≡ available
      → with_amounts input release asked available ≡ ok ruling
      → Outcome input release ruling
  unfolding with_amounts
  with_amounts-Outcome complete none available p q h = absurd (complete.requested p)
  with_amounts-Outcome complete (some requested) none p q h = absurd (complete.available q)
  with_amounts-Outcome complete (some requested) (some refundable) p q h =
      let (_, natural, h') =
        >>=-eq-ok (assert_money requested)
          (λ _. assert_money refundable >> judge input release requested refundable) {c = ruling}
          h in
      let (_, _, judged) =
        >>=-eq-ok (assert_money refundable) (λ _. judge input release requested refundable)
          {c = ruling} h' in
      judge-Outcome requested refundable complete p q (assert_money-natural requested natural)
        judged

  -- Every ruling comes about in one of the four ways.
  pub rule_on-Outcome : rule_on input release ≡ ok ruling → Outcome input release ruling
  unfolding rule_on
  rule_on-Outcome h = elim (Bool-cases (is_empty (find_missing_facts input))) [
    | inl e ↦
        with_amounts-Outcome ((find_missing_facts-eq-nil_iff input).0 (ground arith))
          input.request.requested_amount input.facts.refundable_amount refl refl (ground arith)
    | inr e ↦ Outcome.incomplete (λ nil. ground arith) (ground arith)
  ]

-- All that an automatic refund rests on.
pub record Grants (input : RefundPolicyInput) (release : RefundPolicyRelease) : Type 0 where
  pub requested : Money
  pub refundable : Money
  pub prior : ℤ
  pub complete : IsComplete input
  pub asked : input.request.requested_amount ≡ some requested
  pub available : input.facts.refundable_amount ≡ some refundable
  pub unopposed : IsUnopposed input release requested refundable
  pub seen : lacks_damage_photo input release ≡ false
  pub supported : str_eq requested.currency release.supported_currency ≡ true
  pub destination : input.facts.refund_destination ≡ some original_payment_method
  pub positive : pos 0 <ℤ requested.amount_minor
  pub automatic : requested.amount_minor ≤ℤ release.automatic_maximum_minor
  pub approvable : requested.amount_minor ≤ℤ release.approval_maximum_minor
  pub known : input.facts.prior_refund_count ≡ some prior
  pub low :
      (prior <ℤ release.high_risk_prior_refund_count)
      × (prior <ℤ release.elevated_risk_prior_refund_count)

low_of_rest :
    (risk : RefundRiskClass)
    → risk ≢ RefundRiskClass.high
    → risk ≢ RefundRiskClass.elevated
    → risk ≡ RefundRiskClass.low
low_of_rest risk h e = ground arith

positive_of_ne : (a : ℤ) → pos 0 ≤ℤ a → a ≢ pos 0 → pos 0 <ℤ a
positive_of_ne a h e = ground arith

module _ (input : RefundPolicyInput) (release : RefundPolicyRelease) where
  unopposed_same :
      (q f : Money)
      → input.request.requested_amount ≡ some q
      → input.facts.refundable_amount ≡ some f
      → IsUnopposed input release q f
      → ((requested : Money) × (refundable : Money) × (input.request.requested_amount
            ≡ some requested)
          × (input.facts.refundable_amount ≡ some refundable)
          × ¬ IsUnopposed input release requested refundable)
      → ⊥
  unopposed_same q f p s u (q', f', p', s', n) =
      let same_q : q' ≡ q = cc (p, p') in
      let same_f : f' ≡ f = cc (s, s') in n (rw (same_q, same_f) u)

  pub Outcome-Grants :
      (ruling : Ruling)
      → Outcome input release ruling
      → ruling.effect ≡ PolicyEffect.allow
      → Grants input release
  Outcome-Grants ruling (Outcome.incomplete n e) a = ground arith
  Outcome-Grants ruling (Outcome.opposed q f r c p s d e) a = ground arith
  Outcome-Grants ruling (Outcome.unseen q f c p s u l e) a = ground arith
  Outcome-Grants ruling (Outcome.weighed requested refundable risk c p s natural u l assessed e) a =
      let (no_takeover, no_approval) =
        (route-allow_iff (takeover_reasons input release requested risk)
            (approval_reasons release requested risk)).0
          (ap (λ (r : Ruling). r.effect) (sym e) ∙ a) in
      let standard = (takeover_reasons-eq-nil_iff input release requested risk).0 no_takeover in
      let (calm, within) = (approval_reasons-eq-nil_iff release requested risk).0 no_approval in
      let counted =
        assess_refund_risk-HasRisk input.facts.prior_refund_count release risk assessed in
      record {
        requested = requested;
        refundable = refundable;
        prior = counted.prior;
        complete = c;
        asked = p;
        available = s;
        unopposed = u;
        seen = l;
        supported = standard.currency;
        destination = standard.destination;
        positive = positive_of_ne requested.amount_minor natural u.positive;
        automatic = within;
        approvable = standard.bounded;
        known = counted.known;
        low = counted.is_low.0 (low_of_rest risk standard.not_high calm);
      }

  pub Outcome-allow :
      (ruling : Ruling)
      → Outcome input release ruling
      → Grants input release
      → ruling.effect ≡ PolicyEffect.allow
  Outcome-allow ruling (Outcome.incomplete n e) g =
      absurd (n ((find_missing_facts-eq-nil_iff input).1 g.complete))
  Outcome-allow ruling (Outcome.opposed q f r c p s d e) g =
      let same_q : q ≡ g.requested = cc (p, g.asked) in
      let same_f : f ≡ g.refundable = cc (s, g.available) in
      let clear : denial input release q f ≡ none =
        rw (same_q, same_f)
          ((denial-eq-none_iff input release g.requested g.refundable).1 g.unopposed) in
      ground arith
  Outcome-allow ruling (Outcome.unseen q f c p s u l e) g = cc (g.seen, l)
  Outcome-allow ruling (Outcome.weighed q f risk c p s natural u l assessed e) g =
      let same_q : q ≡ g.requested = cc (p, g.asked) in
      let counted =
        assess_refund_risk-HasRisk input.facts.prior_refund_count release risk assessed in
      let same_n : counted.prior ≡ g.prior = cc (counted.known, g.known) in
      let calm : risk ≡ RefundRiskClass.low = counted.is_low.1 (rw same_n g.low) in
      let standard : IsStandard input release q risk = record {
        currency = rw same_q g.supported;
        destination = g.destination;
        not_high = λ h. cc (calm, h);
        bounded = rw same_q g.approvable;
      } in
      let within : q.amount_minor ≤ℤ release.automatic_maximum_minor = rw same_q g.automatic in
      rw e (
        (route-allow_iff (takeover_reasons input release q risk)
            (approval_reasons release q risk)).1
          (
            (takeover_reasons-eq-nil_iff input release q risk).1 standard,
            (approval_reasons-eq-nil_iff release q risk).1 (λ h. cc (calm, h), within),
          ))

  -- What every ruling that can still lead to a refund rests on.
  pub record Offers : Type 0 where
    pub requested : Money
    pub refundable : Money
    pub complete : IsComplete input
    pub asked : input.request.requested_amount ≡ some requested
    pub available : input.facts.refundable_amount ≡ some refundable
    pub unopposed : IsUnopposed input release requested refundable
    pub positive : pos 0 <ℤ requested.amount_minor
    pub seen : lacks_damage_photo input release ≡ false

  pub Outcome-Offers :
      (ruling : Ruling)
      → Outcome input release ruling
      → ruling.effect ≢ PolicyEffect.deny
      → ruling.effect ≢ PolicyEffect.needs_facts
      → Offers
  Outcome-Offers ruling (Outcome.incomplete n e) a b = absurd (b (ground arith))
  Outcome-Offers ruling (Outcome.opposed q f r c p s d e) a b = absurd (a (ground arith))
  Outcome-Offers ruling (Outcome.unseen q f c p s u l e) a b = absurd (b (ground arith))
  Outcome-Offers ruling (Outcome.weighed q f risk c p s natural u l assessed e) a b = record {
    requested = q;
    refundable = f;
    complete = c;
    asked = p;
    available = s;
    unopposed = u;
    positive = positive_of_ne q.amount_minor natural u.positive;
    seen = l;
  }

  -- When a ruling denies: all facts are there, and one of the reasons to deny applies.
  pub Outcome-deny_iff :
      (ruling : Ruling)
      → Outcome input release ruling
      → (ruling.effect ≡ PolicyEffect.deny) ↔ (
          IsComplete input
          × ((requested : Money) × (refundable : Money) × (input.request.requested_amount
                ≡ some requested)
              × (input.facts.refundable_amount ≡ some refundable)
              × ¬ IsUnopposed input release requested refundable))
  Outcome-deny_iff ruling (Outcome.incomplete n e) =
      (λ a. absurd (ground arith), λ g. absurd (n ((find_missing_facts-eq-nil_iff input).1 g.0)))
  Outcome-deny_iff ruling (Outcome.opposed q f r c p s d e) = (
    λ _. (c, (q, f, p, s, λ u. cc (d, (denial-eq-none_iff input release q f).1 u))),
    λ _. ground arith,
  )
  Outcome-deny_iff ruling (Outcome.unseen q f c p s u l e) =
      (λ a. absurd (ground arith), λ g. absurd (unopposed_same q f p s u g.1))
  Outcome-deny_iff ruling (Outcome.weighed q f risk c p s natural u l assessed e) = (
    λ a. absurd (route-ne-deny _ _ (ap (λ (r : Ruling). r.effect) (sym e) ∙ a)),
    λ g. absurd (unopposed_same q f p s u g.1),
  )
