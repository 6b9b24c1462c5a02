-- ===== src/Cases/Life.antt =====
-- Sequences of calls on the repository of apps/services/human-operations/src/human-case-repository.ts,
-- and what a case lives through.
use text.Mathlib.TextLemmas.{append_cancel_left, append_cancel_right}
use customer_service_os_lite.Common.{
  ℕ, ◌≤◌, ◌<◌, ◌≡◌, ◌≢◌, ◌⊎◌, refl, sym, ap, subst, ◌∙◌, inl, inr, Bool-cases, Option, some, List,
  [], ◌∷◌, String, str_eq, str_eq_iff, Result, ok, err, arith,
}
use customer_service_os_lite.Common.Maps.{map_get, map_set, get-set-same, get-set-other}
use customer_service_os_lite.Cases.Types.{
  HumanCase, CaseError, OpenHumanCaseInput, CloseHumanCaseInput, ClaimHumanCaseInput,
  ReassignHumanCaseInput, DecideHumanCaseInput,
}
use customer_service_os_lite.Cases.Store.{Store, Supply, open_case, close_case}
use customer_service_os_lite.Cases.Store.Staff.{claim, reassign, decide, mark_outbox_delivered}
use customer_service_os_lite.Cases.Store.Staff.Writes.{
  rank, IsChange, case_id_of, Writes, keeps, changes, opens, open_case-Writes, close_case-Writes,
  claim-Writes, reassign-Writes, decide-Writes, mark_outbox_delivered-Writes,
}

pub data Request : Type 0 where
  open_for : OpenHumanCaseInput → Request
  close_for : CloseHumanCaseInput → Request
  claim_case : ClaimHumanCaseInput → Request
  reassign_case : ReassignHumanCaseInput → Request
  decide_case : DecideHumanCaseInput → Request
  deliver : (event_id tenant environment : String) → Request

-- The store that a call leaves; an error has written nothing.
abbrev pub left_by : {A : Type 0} → Result CaseError (A × Store) → Store → Store
left_by (ok (answer, t)) s = t
left_by (err e) s = s

pub record Grown (c d : HumanCase) : Type 0 where
  pub newer : c.case_version < d.case_version
  pub forward : rank c.status ≤ rank d.status
  pub unfinished : rank c.status < 3
  pub rest : d ≡ record c {
    status = d.status;
    assigned_staff_id = d.assigned_staff_id;
    case_version = d.case_version;
    updated_at = d.updated_at;
    decided_at = d.decided_at;
  }

-- A case has not changed, or it has a later version, was not closed, is no step back, and differs in
-- its status, assignee, version and times only.
abbrev pub Evolves : HumanCase → HumanCase → Type 0
Evolves c d = (d ≡ c) ⊎ Grown c d

Grown-trans : (c d e : HumanCase) → Grown c d → Grown d e → Grown c e
Grown-trans c d e g h = record {
  newer = (let a = g.newer in let b = h.newer in omega arith);
  forward = (let a = g.forward in let b = h.forward in omega arith);
  unfinished = g.unfinished;
  rest =
      h.rest
      ∙ ap
          (λ (x : HumanCase). record x {
            status = e.status;
            assigned_staff_id = e.assigned_staff_id;
            case_version = e.case_version;
            updated_at = e.updated_at;
            decided_at = e.decided_at;
          })
          g.rest;
}

Evolves-trans : (c d e : HumanCase) → Evolves c d → Evolves d e → Evolves c e
Evolves-trans c d e (inl same) h = subst (λ x. Evolves x e) same h
Evolves-trans c d e (inr g) (inl same) = inr (subst (Grown c) (sym same) g)
Evolves-trans c d e (inr g) (inr h) = inr (Grown-trans c d e g h)

-- No id is drawn twice.
abbrev pub Distinct : Supply → Type 0
Distinct supply = (m n : ℕ) → supply.ids m ≡ supply.ids n → m ≡ n

case_id_of_injective :
    (supply : Supply)
    → Distinct supply
    → (m n : ℕ) → case_id_of supply m ≡ case_id_of supply n
    → m ≡ n
case_id_of_injective supply distinct m n h =
    distinct m n (append_cancel_right _ _ "" (append_cancel_left "case-" _ _ h))

-- Cases are stored under their ids, which have been drawn.
record IsIssued (supply : Supply) (s : Store) : Type 0 where
  own : (id : String) (c : HumanCase) → map_get id s.cases ≡ some c → c.case_id ≡ id
  drawn :
      (id : String) (c : HumanCase)
      → map_get id s.cases ≡ some c
      → (n : ℕ) × (n < s.ids_taken) × (id ≡ case_id_of supply n)

some_is : {a b : HumanCase} → ◌≡◌ {A = Option HumanCase} (some a) (some b) → a ≡ b
some_is e = cc e

-- A case with the same id is the written one, any other is as it was.
set_cases :
    (id key : String) (d c : HumanCase) (m : List (String × HumanCase))
    → map_get id (map_set key d m) ≡ some c
    → ((id ≡ key) × (c ≡ d)) ⊎ ((id ≢ key) × (map_get id m ≡ some c))
set_cases id key d c m h =
    let iff = str_eq_iff id key in
    elim (Bool-cases (str_eq id key)) [
      | inl same ↦
          let is = iff.0 same in
          let there = get-set-same key d m in
          let found : map_get key (map_set key d m) ≡ some c =
            subst (λ x. map_get x (map_set key d m) ≡ some c) is h in
          inl (is, some_is (sym found ∙ there))
      | inr other ↦
          let apart : id ≢ key = λ e. (let t = iff.1 e in absurd (cc (t, other))) in
          inr (apart, sym (get-set-other key id d m apart) ∙ h)
    ]

module _ (supply : Supply) where
  unfoldable pub after : Request → Store → Store
  after (Request.open_for input) s = left_by (open_case supply s input) s
  after (Request.close_for input) s = left_by (close_case supply s input) s
  after (Request.claim_case input) s = left_by (claim supply s input) s
  after (Request.reassign_case input) s = left_by (reassign supply s input) s
  after (Request.decide_case input) s = left_by (decide supply s input) s
  after (Request.deliver event_id tenant environment) s =
      mark_outbox_delivered s event_id tenant environment

  unfoldable pub run_requests : List Request → Store → Store
  unfolding after
  run_requests [] s = s
  run_requests (r ∷ rs) s = run_requests rs (after r s)

  left_by-Writes :
      {A : Type 0} (answer : Result CaseError (A × Store)) (s : Store)
      → ((a : A) (t : Store) → answer ≡ ok (a, t) → Writes supply s t)
      → Writes supply s (left_by answer s)
  left_by-Writes (ok (a, t)) s writes = writes a t refl
  left_by-Writes (err e) s writes = keeps refl (omega arith)

  after-Writes : (r : Request) (s : Store) → Writes supply s (after r s)
  unfolding after
  after-Writes (Request.open_for input) s =
      left_by-Writes (open_case supply s input) s (λ c t h. open_case-Writes supply s t input c h)
  after-Writes (Request.close_for input) s =
      left_by-Writes (close_case supply s input) s (λ c t h. close_case-Writes supply s t input c h)
  after-Writes (Request.claim_case input) s =
      left_by-Writes (claim supply s input) s (λ c t h. claim-Writes supply s t input c h)
  after-Writes (Request.reassign_case input) s =
      left_by-Writes (reassign supply s input) s (λ c t h. reassign-Writes supply s t input c h)
  after-Writes (Request.decide_case input) s =
      left_by-Writes (decide supply s input) s (λ a t h. decide-Writes supply s t input a.0 a.1 h)
  after-Writes (Request.deliver event_id tenant environment) s =
      mark_outbox_delivered-Writes supply s event_id tenant environment

  change-case_id : (c d : HumanCase) → IsChange c d → d.case_id ≡ c.case_id
  change-case_id c d change = ap (λ (x : HumanCase). x.case_id) change.rest

  Writes-IsIssued : (s t : Store) → IsIssued supply s → Writes supply s t → IsIssued supply t
  Writes-IsIssued s t inv (keeps same taken) = record {
    own = λ id c h. inv.own id c (ap (map_get id) (sym same) ∙ h);
    drawn = λ id c h.
        (let (n, below, is) = inv.drawn id c (ap (map_get id) (sym same) ∙ h) in
          (n, omega arith, is));
  }
  Writes-IsIssued s t inv (changes at c d stored change written taken) = record {
    own = λ id e h. elim (set_cases id d.case_id d e s.cases (ap (map_get id) (sym written) ∙ h)) [
      | inl (is, same) ↦ ap (λ (x : HumanCase). x.case_id) same ∙ sym is
      | inr (apart, before) ↦ inv.own id e before
    ];
    drawn = λ id e h.
        elim (set_cases id d.case_id d e s.cases (ap (map_get id) (sym written) ∙ h)) [
          | inl (is, same) ↦
              let (n, below, drawn) = inv.drawn at c stored in
              (n, omega arith, is ∙ change-case_id c d change ∙ inv.own at c stored ∙ drawn)
          | inr (apart, before) ↦
              let (n, below, drawn) = inv.drawn id e before in (n, omega arith, drawn)
        ];
  }
  Writes-IsIssued s t inv (opens d named written taken) = record {
    own = λ id e h. elim (set_cases id d.case_id d e s.cases (ap (map_get id) (sym written) ∙ h)) [
      | inl (is, same) ↦ ap (λ (x : HumanCase). x.case_id) same ∙ sym is
      | inr (apart, before) ↦ inv.own id e before
    ];
    drawn = λ id e h.
        elim (set_cases id d.case_id d e s.cases (ap (map_get id) (sym written) ∙ h)) [
          | inl (is, same) ↦ (s.ids_taken, taken, is ∙ named)
          | inr (apart, before) ↦
              let (n, below, drawn) = inv.drawn id e before in (n, omega arith, drawn)
        ];
  }

  Writes-Evolves :
      (s t : Store) (id : String) (c : HumanCase)
      → Distinct supply
      → IsIssued supply s
      → Writes supply s t
      → map_get id s.cases ≡ some c
      → (d : HumanCase) × (map_get id t.cases ≡ some d) × Evolves c d
  Writes-Evolves s t id c distinct inv (keeps same taken) h =
      (c, ap (map_get id) same ∙ h, inl refl)
  Writes-Evolves s t id c distinct inv (changes at b d stored change written taken) h =
      let named = change-case_id b d change ∙ inv.own at b stored in
      let iff = str_eq_iff id d.case_id in
      elim (Bool-cases (str_eq id d.case_id)) [
        | inl same ↦
            let is : id ≡ d.case_id = iff.0 same in
            let one : c ≡ b = some_is (sym h ∙ ap (λ x. map_get x s.cases) (is ∙ named) ∙ stored) in
            (
              d,
              ap (map_get id) written
                  ∙ ap (λ x. map_get x (map_set d.case_id d s.cases)) is
                  ∙ get-set-same d.case_id d s.cases,
              inr (
                  subst (λ x. Grown x d) (sym one)
                    (record {
                      newer = (let v = change.versioned in omega arith);
                      forward = change.forward;
                      unfinished = change.unfinished;
                      rest = change.rest;
                    })),
            )
        | inr other ↦
            let apart : id ≢ d.case_id = λ e. (let u = iff.1 e in absurd (cc (u, other))) in
            (c, ap (map_get id) written ∙ get-set-other d.case_id id d s.cases apart ∙ h, inl refl)
      ]
  Writes-Evolves s t id c distinct inv (opens d named written taken) h =
      let (n, below, drawn) = inv.drawn id c h in
      let apart : id ≢ d.case_id = λ e.
        (let same = case_id_of_injective supply distinct n s.ids_taken (sym drawn ∙ e ∙ named) in
          omega arith) in
      (c, ap (map_get id) written ∙ get-set-other d.case_id id d s.cases apart ∙ h, inl refl)

  run-IsIssued :
      (rs : List Request) (s : Store) → IsIssued supply s → IsIssued supply (run_requests rs s)
  unfolding run_requests
  run-IsIssued [] s inv = inv
  run-IsIssued (r ∷ rs) s inv =
      run-IsIssued rs (after r s) (Writes-IsIssued s (after r s) inv (after-Writes r s))

  run-Evolves :
      (rs : List Request) (s : Store) (id : String) (c : HumanCase)
      → Distinct supply
      → IsIssued supply s
      → map_get id s.cases ≡ some c
      → (d : HumanCase) × (map_get id (run_requests rs s).cases ≡ some d) × Evolves c d
  unfolding run_requests
  run-Evolves [] s id c distinct inv h = (c, h, inl refl)
  run-Evolves (r ∷ rs) s id c distinct inv h =
      let written = after-Writes r s in
      let (d, found, first) = Writes-Evolves s (after r s) id c distinct inv written h in
      let (e, there, later) =
        run-Evolves rs (after r s) id d distinct (Writes-IsIssued s (after r s) inv written)
          found in
      (e, there, Evolves-trans c d e first later)

abbrev pub no_cases : Store
no_cases = record {
  cases = [];
  workflow_index = [];
  audit_events = [];
  idempotency = [];
  outbox = [];
  ids_taken = 0;
  clock_reads = 0;
}

no_cases-IsIssued : (supply : Supply) → IsIssued supply no_cases
unfolding map_get
no_cases-IsIssued supply = record { own = λ id c h. cc h; drawn = λ id c h. cc h }

-- A case is never lost and only moves forward: whatever calls a repository that started empty has seen,
-- where its source of ids repeats none, a case that is then stored under an id is still stored under it
-- behind any further calls, and either has not changed or has a later version, was not closed before,
-- stands at the same or a later one of open, claimed, decision pending and closed, and differs in its
-- status, assignee, version and times only.
pub case_life :
    (supply : Supply) (before more : List Request) (id : String) (c : HumanCase)
    → Distinct supply
    → map_get id (run_requests supply before no_cases).cases ≡ some c
    → (d : HumanCase) × (map_get id
          (run_requests supply more (run_requests supply before no_cases)).cases
        ≡ some d)
      × Evolves c d
case_life supply before more id c distinct h =
    run-Evolves supply more (run_requests supply before no_cases) id c distinct
      (run-IsIssued supply before no_cases (no_cases-IsIssued supply)) h
