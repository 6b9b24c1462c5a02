-- ===== src/Cases/Store/Staff/Replay.antt =====
-- Decisions of staff in apps/services/human-operations/src/human-case-repository.ts: what they need,
-- what they write, and that a repeated request changes nothing.
use customer_service_os_lite.Common.{
  ℕ, ◌+◌, Bool, true, false, not, ◌||◌, ◌≡◌, ◌⊎◌, refl, sym, subst, ◌∙◌, inl, inr, Option-cases,
  Option, none, some, String, str_eq_iff, Result, ok, err, ◌>>=◌, ◌>>◌, >>=-eq-ok, throw_if, arith,
}
use customer_service_os_lite.Common.Maps.{map_get, get-set-same}
use customer_service_os_lite.Cases.Types.{
  HumanCase, HumanCaseStatus, HumanDecisionOutboxEvent, CaseError, DecideHumanCaseInput,
  includes_decision,
}
use customer_service_os_lite.Cases.Store.{
  StoredIdempotency, Store, Supply, is_claimed, is_staff, require_case, assert_version, replay,
  remember, update, append_audit,
}
use customer_service_os_lite.Cases.Store.Staff.{
  outbox_of, decide_fingerprint, deciding, decide_fresh, decide,
}

-- A case that its tenant and environment see.
pub record IsVisible (s : Store) (case_id tenant environment : String) (c : HumanCase)
    : Type 0 where
  pub stored : map_get case_id s.cases ≡ some c
  pub tenant_matches : c.tenant_id ≡ tenant
  pub environment_matches : c.environment_id ≡ environment

pub require_case-IsVisible :
    (s : Store) (case_id tenant environment : String) (c : HumanCase)
    → require_case s case_id tenant environment ≡ ok c
    → IsVisible s case_id tenant environment c
unfolding require_case
require_case-IsVisible s case_id tenant environment c h =
    elim (Option-cases (map_get case_id s.cases)) [
      | inl absent ↦ ground arith
      | inr (k, is) ↦
          let tenants = str_eq_iff k.tenant_id tenant in
          let environments = str_eq_iff k.environment_id environment in
          record {
            stored = ground arith;
            tenant_matches = ground arith;
            environment_matches = ground arith;
          }
    ]

pub IsVisible-require_case :
    (s : Store) (case_id tenant environment : String) (c : HumanCase)
    → IsVisible s case_id tenant environment c
    → require_case s case_id tenant environment ≡ ok c
unfolding require_case
IsVisible-require_case s case_id tenant environment c v =
    let tenants = str_eq_iff c.tenant_id tenant in
    let environments = str_eq_iff c.environment_id environment in
    let there = v.stored in
    let t = v.tenant_matches in let e = v.environment_matches in ground arith

-- What a decision asks of the case.
pub record IsDecidable (s : Store) (input : DecideHumanCaseInput) (current : HumanCase)
    : Type 0 where
  pub visible : IsVisible s input.case_id input.tenant_id input.environment_id current
  pub version : current.case_version ≡ input.expected_case_version
  pub status : current.status ≡ HumanCaseStatus.claimed
  pub assigned : current.assigned_staff_id ≡ some input.staff_id
  pub allowed : includes_decision current.allowed_actions input.decision ≡ true

version_is : (c : HumanCase) (n : ℕ) → assert_version c n ≡ ok tt → c.case_version ≡ n
unfolding assert_version
version_is c n h = ground arith

-- The test that guards a decision.
guard_parts :
    (status : HumanCaseStatus) (assigned : Option String) (staff : String) (b : Bool)
    → (not (is_claimed status) || (not (is_staff assigned staff) || not b)) ≡ false
    → (status ≡ HumanCaseStatus.claimed) × (assigned ≡ some staff) × (b ≡ true)
unfolding is_claimed is_staff
guard_parts status none staff b h = ground arith
guard_parts status (some s) staff b h =
    let same = str_eq_iff s staff in (ground arith, ground arith, ground arith)

checks_parts :
    {B : Type 0} (v : Result CaseError (Unit {0})) (t : Bool) (e : CaseError) (b c : B)
    → (v >> throw_if t e >> ok b) ≡ ok c
    → (v ≡ ok tt) × (t ≡ false) × (b ≡ c)
checks_parts (ok u) true e b c h = ground arith
checks_parts (ok u) false e b c h = (refl, refl, ground arith)
checks_parts (err x) t e b c h = ground arith

module _ (supply : Supply) (s : Store) (input : DecideHumanCaseInput) where
  refuses : HumanCase → Bool
  refuses current =
      not (is_claimed current.status)
      || (not (is_staff current.assigned_staff_id input.staff_id)
          || not (includes_decision current.allowed_actions input.decision))

  checked : HumanCase → Result CaseError ((HumanCase × HumanDecisionOutboxEvent) × Store)
  checked current =
      assert_version current input.expected_case_version
      >> throw_if (refuses current) CaseError.case_conflict
      >> ok (deciding supply s input current)

  pub decide_fresh-parts :
      (out : (HumanCase × HumanDecisionOutboxEvent) × Store)
      → decide_fresh supply s input ≡ ok out
      → (current : HumanCase) × IsDecidable s input current
        × (deciding supply s input current ≡ out)
  unfolding decide_fresh checked refuses
  decide_fresh-parts out h =
      let (current, found, rest) =
        >>=-eq-ok (require_case s input.case_id input.tenant_id input.environment_id) checked
          {c = out} h in
      let (asserted, passes, made) =
        checks_parts (assert_version current input.expected_case_version) (refuses current)
          CaseError.case_conflict (deciding supply s input current) out rest in
      let (status, assigned, allowed) =
        guard_parts current.status current.assigned_staff_id input.staff_id
          (includes_decision current.allowed_actions input.decision) passes in
      (
        current,
        record {
          visible =
              require_case-IsVisible s input.case_id input.tenant_id input.environment_id current
                found;
          version = version_is current input.expected_case_version asserted;
          status = status;
          assigned = assigned;
          allowed = allowed;
        },
        made,
      )

  answered :
      Option (StoredIdempotency × HumanDecisionOutboxEvent)
      → Result CaseError ((HumanCase × HumanDecisionOutboxEvent) × Store)
  answered none = decide_fresh supply s input
  answered (some (value, event)) =
      require_case s value.case_id input.tenant_id input.environment_id >>= λ c. ok ((c, event), s)

  answered_parts :
      (o : Option (StoredIdempotency × HumanDecisionOutboxEvent))
      (out : (HumanCase × HumanDecisionOutboxEvent) × Store)
      → answered o ≡ ok out
      → (decide_fresh supply s input ≡ ok out) ⊎ (s ≡ out.1)
  unfolding answered
  answered_parts none out h = inl h
  answered_parts (some (value, event)) out h =
      let (c, found, made) =
        >>=-eq-ok (require_case s value.case_id input.tenant_id input.environment_id)
          (λ c. ok ((c, event), s)) {c = out} h in
      inr (ground arith)

  decide_is : decide supply s input ≡ (
      replay s input.idempotency_key (decide_fingerprint input) >>= λ replayed.
      answered (outbox_of replayed))
  unfolding decide answered
  decide_is = refl

  decide-branches :
      (out : (HumanCase × HumanDecisionOutboxEvent) × Store)
      → decide supply s input ≡ ok out
      → (decide_fresh supply s input ≡ ok out) ⊎ (s ≡ out.1)
  decide-branches out h =
      let (replayed, found, rest) =
        >>=-eq-ok (replay s input.idempotency_key (decide_fingerprint input))
          (λ replayed. answered (outbox_of replayed)) {c = out} (sym decide_is ∙ h) in
      answered_parts (outbox_of replayed) out rest

  -- What a fresh decision leaves in the store.
  pub record IsWritten (current : HumanCase) (out : (HumanCase × HumanDecisionOutboxEvent) × Store)
      : Type 0 where
    pub next : out.0.0.case_version ≡ current.case_version + 1
    pub pending : out.0.0.status ≡ HumanCaseStatus.decision_pending
    pub owner :
        (out.0.0.tenant_id ≡ current.tenant_id) × (out.0.0.environment_id ≡ current.environment_id)
    pub stored : map_get out.0.0.case_id out.1.cases ≡ some out.0.0
    pub posted : map_get out.0.1.event_id out.1.outbox ≡ some out.0.1
    pub names :
        (out.0.1.decision ≡ input.decision)
        × (out.0.1.decided_by ≡ input.staff_id)
        × (out.0.1.case_id ≡ out.0.0.case_id)
    pub remembered :
        map_get input.idempotency_key out.1.idempotency
        ≡ some (record {
          fingerprint = decide_fingerprint input;
          case_id = out.0.0.case_id;
          outbox_event = some out.0.1;
        })

  deciding-IsWritten : (current : HumanCase) → IsWritten current (deciding supply s input current)
  unfolding deciding update append_audit remember
  deciding-IsWritten current = record {
    next = refl;
    pending = refl;
    owner = (refl, refl);
    stored = get-set-same _ _ _;
    posted = get-set-same _ _ _;
    names = (refl, refl, refl);
    remembered = get-set-same _ _ _;
  }

  -- A remembered decision is answered from memory.
  remembered-decide :
      (s' : Store) (c : HumanCase) (e : HumanDecisionOutboxEvent)
      → map_get input.idempotency_key s'.idempotency
        ≡ some (record {
          fingerprint = decide_fingerprint input;
          case_id = c.case_id;
          outbox_event = some e;
        })
      → require_case s' c.case_id input.tenant_id input.environment_id ≡ ok c
      → decide supply s' input ≡ ok ((c, e), s')
  unfolding decide replay
  remembered-decide s' c e h k =
      let same = str_eq_iff (decide_fingerprint input) (decide_fingerprint input) in ground arith

  -- A decision that has been answered is answered alike when the request is repeated at the store
  -- that it left, and the repetition changes nothing.
  pub decide_twice :
      (c : HumanCase) (e : HumanDecisionOutboxEvent) (s' : Store)
      → decide supply s input ≡ ok ((c, e), s')
      → decide supply s' input ≡ ok ((c, e), s')
  decide_twice c e s' h = elim (decide-branches ((c, e), s') h) [
    | inr same ↦ subst (λ t. decide supply t input ≡ ok ((c, e), s')) same h
    | inl fresh ↦
        let (current, decidable, made) = decide_fresh-parts ((c, e), s') fresh in
        let written : IsWritten current ((c, e), s') =
          subst (IsWritten current) made (deciding-IsWritten current) in
        remembered-decide s' c e written.remembered (
          IsVisible-require_case s' c.case_id input.tenant_id input.environment_id c (record {
            stored = written.stored;
            tenant_matches = written.owner.0 ∙ decidable.visible.tenant_matches;
            environment_matches = written.owner.1 ∙ decidable.visible.environment_matches;
          }))
  ]

  fresh_is :
      map_get input.idempotency_key s.idempotency ≡ none
      → decide supply s input ≡ decide_fresh supply s input
  unfolding decide replay
  fresh_is h = ground arith

  -- A request with a key that is not remembered gives a decision only where the case is seen by the
  -- request's tenant and environment, has the expected version, is claimed, and by the staff member
  -- who decides, and where its allowed actions include the decision. The case is then pending, with
  -- the next version; the store holds the case, the outbox event, which names the decision, the staff
  -- member and the case, and the remembered answer.
  pub decide_authorized :
      (out : (HumanCase × HumanDecisionOutboxEvent) × Store)
      → map_get input.idempotency_key s.idempotency ≡ none
      → decide supply s input ≡ ok out
      → (current : HumanCase) × IsDecidable s input current × IsWritten current out
  decide_authorized out h k =
      let (current, decidable, made) = decide_fresh-parts out (sym (fresh_is h) ∙ k) in
      (current, decidable, subst (IsWritten current) made (deciding-IsWritten current))
