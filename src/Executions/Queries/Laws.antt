-- ===== src/Executions/Queries/Laws.antt =====
-- What the queries of the in-memory repository of
-- apps/services/integration-gateway/src/refund-execution-repository.ts give.
use customer_service_os_lite.Common.{
  ℕ, ◌+◌, ◌≡◌, ◌↔◌, refl, ap, ◌∙◌, inl, inr, Bool, true, Bool-cases, str_eq, and_parts, ◌&&◌, none,
  some, List, [], ◌∷◌, String, str_eq_iff, arith,
}
use customer_service_os_lite.Common.Maps.{map_set}
use customer_service_os_lite.Common.Lists.{All}
use customer_service_os_lite.Executions.{
  ExecutionStatus, ReserveInput, Execution, Ledger, Reservation, reservation_key, new_execution,
  reserve, find_value,
}
use customer_service_os_lite.Executions.Queries.{
  ExecutionCounts, no_counts, count_one, count_all, is_at, is_of_preview,
  find_by_workflow_and_preview, public_of, get_refund_operations_snapshot,
}

-- 1 if the statuses are the same, else 0.
abbrev pub occurs : ExecutionStatus → ExecutionStatus → ℕ
occurs ExecutionStatus.in_progress ExecutionStatus.in_progress = 1
occurs ExecutionStatus.submitted ExecutionStatus.submitted = 1
occurs ExecutionStatus.succeeded ExecutionStatus.succeeded = 1
occurs ExecutionStatus.failed ExecutionStatus.failed = 1
occurs ExecutionStatus.pending_reconciliation ExecutionStatus.pending_reconciliation = 1
occurs _ _ = 0

-- How many of the executions are at the status.
abbrev pub occurrences : ExecutionStatus → List (String × Execution) → ℕ
occurrences status [] = 0
occurrences status ((key, e) ∷ m) = occurs status e.status + occurrences status m

-- The counter of the status.
abbrev pub counted : ExecutionStatus → ExecutionCounts → ℕ
counted ExecutionStatus.in_progress c = c.in_progress
counted ExecutionStatus.submitted c = c.submitted
counted ExecutionStatus.succeeded c = c.succeeded
counted ExecutionStatus.failed c = c.failed
counted ExecutionStatus.pending_reconciliation c = c.pending_reconciliation

counted-count_one :
    (status s : ExecutionStatus) (c : ExecutionCounts)
    → counted status (count_one s c) ≡ counted status c + occurs status s
counted-count_one status s c = ground arith

counted-count_all :
    (status : ExecutionStatus) (m : List (String × Execution)) (c : ExecutionCounts)
    → counted status (count_all c m) ≡ counted status c + occurrences status m
counted-count_all status [] c = omega arith
counted-count_all status ((key, e) ∷ m) c =
    let one = counted-count_one status e.status c in
    let rest = counted-count_all status m (count_one e.status c) in omega arith

counted-no_counts : (status : ExecutionStatus) → counted status no_counts ≡ 0
counted-no_counts status = ground arith

-- Each counter of the operations snapshot is the number of the executions that are at its status.
pub snapshot_counts :
    (s : Ledger) (now : ℕ) (status : ExecutionStatus)
    → counted status (get_refund_operations_snapshot s now).execution_counts
      ≡ occurrences status s.executions
unfolding get_refund_operations_snapshot
snapshot_counts s now status =
    let all = counted-count_all status s.executions no_counts in
    let none_yet = counted-no_counts status in omega arith

find-set :
    (test : Execution → Bool) (key : String) (e : Execution) (m : List (String × Execution))
    → test e ≡ true
    → find_value test m ≡ none
    → find_value test (map_set key e m) ≡ some e
unfolding find_value map_set
find-set test key e [] is h = rw is refl
find-set test key e ((k, d) ∷ m) is h = let rest = find-set test key e m is in ground arith

reserved-set :
    (s s' : Ledger) (i : ReserveInput) (random_id id : String)
    → reserve s i random_id ≡ (Reservation.reserved id, s')
    → s'.executions
      ≡ map_set (reservation_key i) (new_execution i (reservation_key i) id) s.executions
unfolding reserve
reserved-set s s' i random_id id h = ground arith

-- The execution is of the workflow and the preview that the reservation is for.
pub record IsFor (i : ReserveInput) (e : Execution) : Type 0 where
  pub tenant : e.tenant_id ≡ i.tenant_id
  pub environment : e.environment_id ≡ i.environment_id
  pub workflow : e.workflow_id ≡ i.workflow_id
  pub preview : e.preview_id ≡ i.preview_id

abbrev lookup_test : ReserveInput → Execution → Bool
lookup_test i e = is_at i.tenant_id i.environment_id e && is_of_preview i.workflow_id i.preview_id e

lookup_test_iff : (i : ReserveInput) (e : Execution) → (lookup_test i e ≡ true) ↔ IsFor i e
unfolding is_at is_of_preview
lookup_test_iff i e =
    let t = str_eq_iff e.tenant_id i.tenant_id in
    let v = str_eq_iff e.environment_id i.environment_id in
    let w = str_eq_iff e.workflow_id i.workflow_id in
    let p = str_eq_iff e.preview_id i.preview_id in
    (
      λ h.
          let (place, rest) = and_parts (is_at i.tenant_id i.environment_id e) _ h in
          let (tenant, environment) = and_parts (str_eq e.tenant_id i.tenant_id) _ place in
          let (workflow, preview) = and_parts (str_eq e.workflow_id i.workflow_id) _ rest in
          record {
            tenant = t.0 tenant;
            environment = v.0 environment;
            workflow = w.0 workflow;
            preview = p.0 preview;
          },
      λ is.
          let a = t.1 is.tenant in
          let b = v.1 is.environment in
          let c = w.1 is.workflow in let d = p.1 is.preview in rw (a, b, c, d) refl,
    )

others-none :
    (i : ReserveInput) (m : List (String × Execution))
    → All (λ entry. ¬ IsFor i entry.1) m
    → find_value (lookup_test i) m ≡ none
unfolding find_value
others-none i [] others = refl
others-none i ((k, e) ∷ m) (other, others) =
    let rest = others-none i m others in
    elim (Bool-cases (lookup_test i e)) [
      | inl found ↦ absurd (other ((lookup_test_iff i e).0 found))
      | inr passed ↦ rw passed rest
    ]

-- A new reservation is found under its workflow and its preview: where no stored execution is of the
-- same tenant, environment, workflow and preview, and a request is reserved under a new key, the
-- execution that is then found has the reserved id, is in progress and has no refund of the provider
-- yet.
pub find-reserve :
    (s s' : Ledger) (i : ReserveInput) (random_id id : String)
    → All (λ entry. ¬ IsFor i entry.1) s.executions
    → reserve s i random_id ≡ (Reservation.reserved id, s')
    → find_by_workflow_and_preview s' i.tenant_id i.environment_id i.workflow_id i.preview_id
      ≡ some (record {
        execution_id = id;
        status = ExecutionStatus.in_progress;
        provider_refund_id = none;
      })
unfolding find_by_workflow_and_preview
find-reserve s s' i random_id id others reserved =
    let new = new_execution i (reservation_key i) id in
    let is : IsFor i new = record {
      tenant = refl;
      environment = refl;
      workflow = refl;
      preview = refl;
    } in
    let found =
      find-set (lookup_test i) (reservation_key i) new s.executions ((lookup_test_iff i new).1 is)
        (others-none i s.executions others) in
    ap (λ m. public_of (find_value (lookup_test i) m)) (reserved-set s s' i random_id id reserved)
    ∙ ap public_of found
