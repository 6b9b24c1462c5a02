-- ===== src/Cases/Store/Staff/Writes.antt =====
-- What each operation of apps/services/human-operations/src/human-case-repository.ts does to the cases.
use customer_service_os_lite.Common.{
  ℕ, ◌+◌, ◌≤◌, ◌<◌, ◌≡◌, ◌⊎◌, refl, sym, ap, subst, ◌∙◌, inl, inr, Bool, Bool-cases, Option-cases,
  Bool, true, false, not, ◌&&◌, Option, none, some, [], ◌∷◌, String, template, is_none,
  if◌then◌else◌, Result, ok, err, ◌>>=◌, ◌>>◌, >>=-eq-ok, throw_if, throw_if-eq-ok, ok-injective,
  or_throw-eq-ok, pair_parts, answer-eq-ok, arith,
}
use customer_service_os_lite.Common.Maps.{map_get, map_set}
use customer_service_os_lite.Cases.Types.{
  HumanCase, HumanCaseStatus, is_open, claimed, decision_pending, closed, HumanDecisionOutboxEvent,
  CaseError, OpenHumanCaseInput, CloseHumanCaseInput, ClaimHumanCaseInput, ReassignHumanCaseInput,
  DecideHumanCaseInput,
}
use customer_service_os_lite.Cases.Store.{
  StoredIdempotency, Store, Supply, is_closed, is_settled, is_staff, require_case, assert_version,
  replay, remember, update, append_audit, opened, open_existing, open_case, closing, close_case,
  workflow_key,
}
use customer_service_os_lite.Cases.Store.Staff.{
  claim_for, claiming, claim_fingerprint, claim_fresh, claim, reassigning, reassign_fingerprint,
  reassign_fresh, reassign, without_event, outbox_of, decide_fingerprint, deciding,
  is_outbox_pending, mark_outbox_delivered, decide,
}
use customer_service_os_lite.Cases.Store.Staff.Replay.{require_case-IsVisible, decide_fresh-parts}

-- The order in which a case goes through its states.
abbrev pub rank : HumanCaseStatus → ℕ
rank is_open = 0
rank claimed = 1
rank decision_pending = 2
rank closed = 3

-- One change of a case: a version more, no step back, and nothing changes a closed case.
pub record IsChange (c d : HumanCase) : Type 0 where
  pub versioned : d.case_version ≡ c.case_version + 1
  pub forward : rank c.status ≤ rank d.status
  pub unfinished : rank c.status < 3
  pub rest : d ≡ record c {
    status = d.status;
    assigned_staff_id = d.assigned_staff_id;
    case_version = d.case_version;
    updated_at = d.updated_at;
    decided_at = d.decided_at;
  }

abbrev pub case_id_of : Supply → ℕ → String
case_id_of supply n = template ("case-" ∷ supply.ids n ∷ [])

-- What a call does to the cases; ids are taken, never given back.
pub data Writes (supply : Supply) (s t : Store) : Type 0 where
  keeps : t.cases ≡ s.cases → s.ids_taken ≤ t.ids_taken → Writes supply s t
  changes :
      (id : String) (c d : HumanCase)
      → map_get id s.cases ≡ some c
      → IsChange c d
      → t.cases ≡ map_set d.case_id d s.cases
      → s.ids_taken ≤ t.ids_taken
      → Writes supply s t
  opens :
      (c : HumanCase)
      → c.case_id ≡ case_id_of supply s.ids_taken
      → t.cases ≡ map_set c.case_id c s.cases
      → s.ids_taken < t.ids_taken
      → Writes supply s t

live_rank : (status : HumanCaseStatus) → is_closed status ≡ false → rank status < 3
unfolding is_closed
live_rank is_open h = omega arith
live_rank claimed h = omega arith
live_rank decision_pending h = omega arith
live_rank closed h = absurd (cc h)

free_rank : (status : HumanCaseStatus) → is_settled status ≡ false → rank status ≤ 1
unfolding is_settled
free_rank is_open h = omega arith
free_rank claimed h = omega arith
free_rank decision_pending h = absurd (cc h)
free_rank closed h = absurd (cc h)

checked_two :
    {E A : Type 0} (a : Result E (Unit {0})) (b : Bool) (e : E) (x y : A)
    → (a >> throw_if b e >> ok x) ≡ ok y
    → (b ≡ false) × (x ≡ y)
checked_two (err f) b e x y h = cc h
checked_two (ok u) true e x y h = cc h
checked_two (ok u) false e x y h = (refl, ok-injective h)

checked_three :
    {E A : Type 0} (a : Result E (Unit {0})) (b : Bool) (e : E) (b' : Bool) (e' : E) (x y : A)
    → (a >> throw_if b e >> throw_if b' e' >> ok x) ≡ ok y
    → (b ≡ false) × (x ≡ y)
checked_three (err f) b e b' e' x y h = cc h
checked_three (ok u) true e b' e' x y h = cc h
checked_three (ok u) false e true e' x y h = cc h
checked_three (ok u) false e false e' x y h = (refl, ok-injective h)

if_ok :
    {E A : Type 0} (b : Bool) (x y z : A)
    → ◌≡◌ {A = Result E A} (if b then ok x else ok y) (ok z)
    → ((b ≡ true) × (x ≡ z)) ⊎ ((b ≡ false) × (y ≡ z))
if_ok true x y z h = inl (refl, ok-injective h)
if_ok false x y z h = inr (refl, ok-injective h)

module _ (supply : Supply) where
  same_store : (s t : Store) → t ≡ s → Writes supply s t
  same_store s t is =
      keeps (ap (λ (x : Store). x.cases) is)
        (let taken = ap (λ (x : Store). x.ids_taken) is in omega arith)

  open_existing-keeps :
      (s t : Store) (input : OpenHumanCaseInput) (id : String) (c : HumanCase)
      → open_existing supply s input id ≡ ok (c, t)
      → t ≡ s
  unfolding open_existing
  open_existing-keeps s t input id c h =
      let (existing, found, h1) =
        or_throw-eq-ok (map_get id s.cases) CaseError.index_invariant _ h in
      let (matches, is) = throw_if-eq-ok _ CaseError.case_conflict _ h1 in
      (pair_parts existing c s t is).1

  pub open_case-Writes :
      (s t : Store) (input : OpenHumanCaseInput) (c : HumanCase)
      → open_case supply s input ≡ ok (c, t)
      → Writes supply s t
  unfolding open_case opened append_audit
  open_case-Writes s t input c h =
      let key = workflow_key input.tenant_id input.environment_id input.workflow_id in
      elim (Option-cases (map_get key s.workflow_index)) [
        | inl unknown ↦
            let (one, made) =
              pair_parts {E = CaseError} (opened supply s input key).0 c
                (opened supply s input key).1 t (ground arith) in
            subst (Writes supply s) (sym made)
              (opens (opened supply s input key).0 refl refl (omega arith))
        | inr (id, is) ↦ same_store s t (open_existing-keeps s t input id c (ground arith))
      ]

  -- The next case and the store that an operation leaves, when it changes the case.
  abbrev IsWritten : Store → HumanCase → HumanCase × Store → Type 0
  IsWritten s c out =
      IsChange c out.0
      × (out.1.cases ≡ map_set out.0.case_id out.0 s.cases)
      × (s.ids_taken ≤ out.1.ids_taken)

  written-Writes :
      (s t : Store) (id tenant environment : String) (c d : HumanCase) (out : HumanCase × Store)
      → require_case s id tenant environment ≡ ok c
      → IsWritten s c out
      → out ≡ (d, t)
      → Writes supply s t
  written-Writes s t id tenant environment c d out found (change, cases, taken) is =
      subst (λ (x : HumanCase × Store). Writes supply s x.1) is
        (changes id c out.0 (require_case-IsVisible s id tenant environment c found).stored change
          cases taken)

  closing-IsWritten :
      (s : Store) (input : CloseHumanCaseInput) (c : HumanCase)
      → is_closed c.status ≡ false
      → IsWritten s c (closing supply s input c)
  unfolding closing update append_audit
  closing-IsWritten s input c live =
      let unfinished = live_rank c.status live in
      (
        record { versioned = refl; forward = omega arith; unfinished = unfinished; rest = refl },
        refl,
        omega arith,
      )

  pub close_case-Writes :
      (s t : Store) (input : CloseHumanCaseInput) (c : HumanCase)
      → close_case supply s input ≡ ok (c, t)
      → Writes supply s t
  unfolding close_case
  close_case-Writes s t input c h =
      let (current, found, h1) =
        >>=-eq-ok (require_case s input.case_id input.tenant_id input.environment_id) _ h in
      let (own, h2) = throw_if-eq-ok _ CaseError.case_not_found _ h1 in
      elim (if_ok (is_closed current.status) (current, s) (closing supply s input current) (c, t)
        h2) [
          | inl (ended, is) ↦ same_store s t (ap (λ (x : HumanCase × Store). x.1) (sym is))
          | inr (live, is) ↦
              written-Writes s t input.case_id input.tenant_id input.environment_id current c _
                found (closing-IsWritten s input current live) is
        ]

  claim_for-IsWritten :
      (s : Store) (input : ClaimHumanCaseInput) (c : HumanCase)
      → is_settled c.status ≡ false
      → IsWritten s c (claim_for supply s input c)
  unfolding claim_for update append_audit
  claim_for-IsWritten s input c free =
      let early = free_rank c.status free in
      (
        record { versioned = refl; forward = omega arith; unfinished = omega arith; rest = refl },
        refl,
        omega arith,
      )

  -- A claim by the holder changes nothing.
  claiming-writes :
      (s : Store) (input : ClaimHumanCaseInput) (c : HumanCase)
      → is_settled c.status ≡ false
      → (claiming supply s input c ≡ (c, s)) ⊎ IsWritten s c (claiming supply s input c)
  unfolding claiming
  claiming-writes s input c free = elim (Bool-cases (is_staff c.assigned_staff_id input.staff_id)) [
    | inl own ↦ inl (ground arith)
    | inr other ↦
        let is : claim_for supply s input c ≡ claiming supply s input c = ground arith in
        inr (subst (IsWritten s c) is (claim_for-IsWritten s input c free))
  ]

  reassigning-IsWritten :
      (s : Store) (input : ReassignHumanCaseInput) (c : HumanCase)
      → is_settled c.status ≡ false
      → IsWritten s c (reassigning supply s input c)
  unfolding reassigning update append_audit
  reassigning-IsWritten s input c free =
      let early = free_rank c.status free in
      (
        record { versioned = refl; forward = omega arith; unfinished = omega arith; rest = refl },
        refl,
        omega arith,
      )

  -- What is remembered is no case.
  remembered :
      (s : Store) (c : HumanCase) (out : HumanCase × Store) (key : String) (v : StoredIdempotency)
      → IsWritten s c out
      → IsWritten s c (out.0, remember out.1 key v)
  unfolding remember
  remembered s c out key v (change, cases, taken) = (change, cases, taken)

  held-Writes :
      (s t : Store) (key : String) (v : StoredIdempotency) (out : HumanCase × Store)
      (c current : HumanCase)
      → out ≡ (current, s)
      → ◌≡◌ {A = HumanCase × Store} (out.0, remember out.1 key v) (c, t)
      → Writes supply s t
  unfolding remember
  held-Writes s t key v out c current same is =
      let kept = ap (λ (x : HumanCase × Store). x.1) same in
      let left = ap (λ (x : HumanCase × Store). x.1) (sym is) in
      keeps (ap (λ (x : Store). x.cases) left ∙ ap (λ (x : Store). x.cases) kept) (
        let taken = ap (λ (x : Store). x.ids_taken) left in
        let before = ap (λ (x : Store). x.ids_taken) kept in omega arith)

  replayed-Writes :
      (s t : Store) (o : Option StoredIdempotency) (tenant environment : String) (c : HumanCase)
      (fresh : Result CaseError (HumanCase × Store))
      → (fresh ≡ ok (c, t) → Writes supply s t)
      → (elim o [
        | some value ↦ require_case s value.case_id tenant environment >>= λ d. ok (d, s)
        | none ↦ fresh
      ])
        ≡ ok (c, t)
      → Writes supply s t
  replayed-Writes s t none tenant environment c fresh writes h = writes h
  replayed-Writes s t (some value) tenant environment c fresh writes h =
      let (d, found, is) =
        >>=-eq-ok (require_case s value.case_id tenant environment) (λ e. ok (e, s)) h in
      same_store s t (pair_parts d c s t is).1

  claim_fresh-Writes :
      (s t : Store) (input : ClaimHumanCaseInput) (c : HumanCase)
      → claim_fresh supply s input ≡ ok (c, t)
      → Writes supply s t
  unfolding claim_fresh
  claim_fresh-Writes s t input c h =
      let (current, found, h1) =
        >>=-eq-ok (require_case s input.case_id input.tenant_id input.environment_id) _ h in
      let out = claiming supply s input current in
      let value = without_event supply (claim_fingerprint input) out.0 in
      let (other, h2) =
        checked_three (assert_version current input.expected_case_version)
          (is_settled current.status) CaseError.case_conflict
          (not (is_none current.assigned_staff_id)
            && not (is_staff current.assigned_staff_id input.staff_id))
          CaseError.case_conflict (out.0, remember out.1 input.idempotency_key value) (c, t) h1 in
      elim (claiming-writes s input current other) [
        | inl same ↦ held-Writes s t input.idempotency_key value out c current same h2
        | inr written ↦
            written-Writes s t input.case_id input.tenant_id input.environment_id current c _ found
              (remembered s current out input.idempotency_key value written) h2
      ]

  reassign_fresh-Writes :
      (s t : Store) (input : ReassignHumanCaseInput) (c : HumanCase)
      → reassign_fresh supply s input ≡ ok (c, t)
      → Writes supply s t
  unfolding reassign_fresh
  reassign_fresh-Writes s t input c h =
      let (current, found, h1) =
        >>=-eq-ok (require_case s input.case_id input.tenant_id input.environment_id) _ h in
      let out = reassigning supply s input current in
      let value = without_event supply (reassign_fingerprint input) out.0 in
      let (free, is) =
        checked_two (assert_version current input.expected_case_version) (is_settled current.status)
          CaseError.case_conflict (out.0, remember out.1 input.idempotency_key value) (c, t) h1 in
      written-Writes s t input.case_id input.tenant_id input.environment_id current c _ found
        (remembered s current out input.idempotency_key value
          (reassigning-IsWritten s input current free))
        is

  pub claim-Writes :
      (s t : Store) (input : ClaimHumanCaseInput) (c : HumanCase)
      → claim supply s input ≡ ok (c, t)
      → Writes supply s t
  unfolding claim
  claim-Writes s t input c h =
      let (replayed, known, h1) =
        >>=-eq-ok (replay s input.idempotency_key (claim_fingerprint input)) _ h in
      replayed-Writes s t replayed input.tenant_id input.environment_id c
        (claim_fresh supply s input) (claim_fresh-Writes s t input c) h1

  pub reassign-Writes :
      (s t : Store) (input : ReassignHumanCaseInput) (c : HumanCase)
      → reassign supply s input ≡ ok (c, t)
      → Writes supply s t
  unfolding reassign
  reassign-Writes s t input c h =
      let (replayed, known, h1) =
        >>=-eq-ok (replay s input.idempotency_key (reassign_fingerprint input)) _ h in
      replayed-Writes s t replayed input.tenant_id input.environment_id c
        (reassign_fresh supply s input) (reassign_fresh-Writes s t input c) h1

  deciding-IsWritten :
      (s : Store) (input : DecideHumanCaseInput) (c : HumanCase)
      → c.status ≡ claimed
      → IsWritten s c ((deciding supply s input c).0.0, (deciding supply s input c).1)
  unfolding deciding update append_audit remember
  deciding-IsWritten s input c is =
      let early : rank c.status ≡ 1 = ap rank is in
      (
        record { versioned = refl; forward = omega arith; unfinished = omega arith; rest = refl },
        refl,
        omega arith,
      )

  abbrev the_pair : HumanCase → HumanDecisionOutboxEvent → HumanCase × HumanDecisionOutboxEvent
  the_pair c e = (c, e)

  pub decide-Writes :
      (s t : Store) (input : DecideHumanCaseInput) (c : HumanCase) (e : HumanDecisionOutboxEvent)
      → decide supply s input ≡ ok ((c, e), t)
      → Writes supply s t
  unfolding decide
  decide-Writes s t input c e h =
      let (replayed, known, h1) =
        >>=-eq-ok (replay s input.idempotency_key (decide_fingerprint input)) _ h in
      elim (Option-cases (outbox_of replayed)) [
        | inl fresh ↦
            let (current, ready, is) =
              decide_fresh-parts supply s input ((c, e), t) (ground arith) in
            subst (λ (x : (HumanCase × HumanDecisionOutboxEvent) × Store). Writes supply s x.1) is
              (let (change, cases, taken) = deciding-IsWritten s input current ready.status in
                changes input.case_id current (deciding supply s input current).0.0
                  ready.visible.stored change cases taken)
        | inr ((value, event), is) ↦
            let h2 : (require_case s value.case_id input.tenant_id input.environment_id >>= λ d.
            ok ((d, event), s))
                ≡ ok ((c, e), t) =
              ground arith in
            let (d, found, same, kept) =
              answer-eq-ok (require_case s value.case_id input.tenant_id input.environment_id)
                (λ x. the_pair x event) (λ x. s) (the_pair c e) t h2 in
            same_store s t kept
      ]

  pub mark_outbox_delivered-Writes :
      (s : Store) (event_id tenant environment : String)
      → Writes supply s (mark_outbox_delivered s event_id tenant environment)
  unfolding mark_outbox_delivered
  mark_outbox_delivered-Writes s event_id tenant environment =
      elim (Bool-cases (is_outbox_pending s event_id tenant environment)) [
        | inl pending ↦ keeps (ground arith) (ground arith)
        | inr absent ↦ keeps (ground arith) (ground arith)
      ]
