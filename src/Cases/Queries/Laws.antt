-- ===== src/Cases/Queries/Laws.antt =====
-- What the queries of the in-memory repository of
-- apps/services/human-operations/src/human-case-repository.ts give.
use mathlib.Core.List.{Mem}
use mathlib.Core.List.Perm
use customer_service_os_lite.Common.{
  arith, ◌&&◌, ℕ, ◌≡◌, refl, sym, ap, subst, ◌∙◌, ◌↔◌, Bool, true, Option, none, some, List, [],
  ◌∷◌, String, str_eq, str_eq_iff, is_none, and_parts, leb, if◌then◌else◌,
}
use customer_service_os_lite.Common.Dates.{Timestamp}
use customer_service_os_lite.Common.Lists.{All, take, length, keep}
use customer_service_os_lite.Common.Lists.Members.{
  mem-keep, mem_take, take-all, All-mem, length-take,
}
use customer_service_os_lite.Common.Sort.{sort_by}
use customer_service_os_lite.Common.Sort.Laws.{sort_by-perm, length-sort_by}
use customer_service_os_lite.Cases.Types.{
  HumanCase, HumanCaseStatus, is_open, claimed, decision_pending, closed, HumanDecisionOutboxEvent,
}
use customer_service_os_lite.Cases.Store.{Store, Supply, is_staff}
use customer_service_os_lite.Cases.Queries.{
  Assignee, ListInput, values, same_case_status, case_is_at, has_status, has_assignee,
  listed_events, counted_events, snapshot_of, list_cases, list_pending_outbox,
  pending_decision_outbox_snapshot,
}

-- What a list of cases is asked for.
pub record IsListed (input : ListInput) (c : HumanCase) : Type 0 where
  pub tenant : c.tenant_id ≡ input.tenant_id
  pub environment : c.environment_id ≡ input.environment_id
  pub status : (status : HumanCaseStatus) → input.status ≡ some status → c.status ≡ status
  pub mine : input.assignee ≡ some Assignee.me → c.assigned_staff_id ≡ some input.staff_id
  pub free : input.assignee ≡ some Assignee.unassigned → c.assigned_staff_id ≡ none

some_is : {A : Type 0} {a b : A} → ◌≡◌ {A = Option A} (some a) (some b) → a ≡ b
some_is e = cc e

same_case_status_iff : (s t : HumanCaseStatus) → (same_case_status s t ≡ true) ↔ (s ≡ t)
same_case_status_iff s t = (forward s t, λ e. subst (λ x. same_case_status s x ≡ true) e (itself s))
  where
    forward : (s t : HumanCaseStatus) → same_case_status s t ≡ true → s ≡ t
    forward is_open is_open h = refl
    forward claimed claimed h = refl
    forward decision_pending decision_pending h = refl
    forward closed closed h = refl
    forward is_open claimed h = absurd (cc h)
    forward is_open decision_pending h = absurd (cc h)
    forward is_open closed h = absurd (cc h)
    forward claimed is_open h = absurd (cc h)
    forward claimed decision_pending h = absurd (cc h)
    forward claimed closed h = absurd (cc h)
    forward decision_pending is_open h = absurd (cc h)
    forward decision_pending claimed h = absurd (cc h)
    forward decision_pending closed h = absurd (cc h)
    forward closed is_open h = absurd (cc h)
    forward closed claimed h = absurd (cc h)
    forward closed decision_pending h = absurd (cc h)

    itself : (s : HumanCaseStatus) → same_case_status s s ≡ true
    itself is_open = refl
    itself claimed = refl
    itself decision_pending = refl
    itself closed = refl

has_status_iff :
    (wanted : Option HumanCaseStatus) (c : HumanCase)
    → (has_status wanted c ≡ true)
      ↔ ((status : HumanCaseStatus) → wanted ≡ some status → c.status ≡ status)
has_status_iff none c = (λ h status e. absurd (cc e), λ h. refl)
has_status_iff (some wanted) c =
    let iff = same_case_status_iff c.status wanted in
    (λ h status e. iff.0 h ∙ some_is e, λ h. iff.1 (h wanted refl))

staff_is : (a : Option String) (staff : String) → (is_staff a staff ≡ true) ↔ (a ≡ some staff)
unfolding is_staff
staff_is none staff = (λ h. absurd (cc h), λ h. absurd (cc h))
staff_is (some s) staff =
    let iff = str_eq_iff s staff in (λ h. ap some (iff.0 h), λ h. iff.1 (some_is h))

none_is : (a : Option String) → (is_none a ≡ true) ↔ (a ≡ none)
none_is none = (λ h. refl, λ h. refl)
none_is (some s) = (λ h. absurd (cc h), λ h. absurd (cc h))

has_assignee_iff :
    (wanted : Option Assignee) (staff : String) (c : HumanCase)
    → (has_assignee wanted staff c ≡ true) ↔ (
        (wanted ≡ some Assignee.me → c.assigned_staff_id ≡ some staff)
        × (wanted ≡ some Assignee.unassigned → c.assigned_staff_id ≡ none))
has_assignee_iff none staff c = (λ h. (λ e. absurd (cc e), λ e. absurd (cc e)), λ h. refl)
has_assignee_iff (some Assignee.me) staff c =
    let iff = staff_is c.assigned_staff_id staff in
    (λ h. (λ e. iff.0 h, λ e. absurd (cc e)), λ (mine, free). iff.1 (mine refl))
has_assignee_iff (some Assignee.unassigned) staff c =
    let iff = none_is c.assigned_staff_id in
    (λ h. (λ e. absurd (cc e), λ e. iff.0 h), λ (mine, free). iff.1 (free refl))

mem_list-parts :
    (le : Timestamp → Timestamp → Bool) (s : Store) (input : ListInput) (c : HumanCase)
    → Mem c (list_cases le s input) ↔ (
        ((Mem c (values s.cases) × (case_is_at input.tenant_id input.environment_id c ≡ true))
          × (has_status input.status c ≡ true))
        × (has_assignee input.assignee input.staff_id c ≡ true))
unfolding list_cases
mem_list-parts le s input c =
    let at_place = keep (case_is_at input.tenant_id input.environment_id) (values s.cases) in
    let of_status = keep (has_status input.status) at_place in
    let of_assignee = keep (has_assignee input.assignee input.staff_id) of_status in
    let sorted = Perm.mem_iff {a = c} (
      sort_by-perm (λ (left right : HumanCase). le right.updated_at left.updated_at) of_assignee) in
    let third = mem-keep (has_assignee input.assignee input.staff_id) of_status c in
    let second = mem-keep (has_status input.status) at_place c in
    let first = mem-keep (case_is_at input.tenant_id input.environment_id) (values s.cases) c in
    (
      λ m.
          let (in_status, assigned) = third.0 (sorted.0 m) in
          let (in_place, of) = second.0 in_status in ((first.0 in_place, of), assigned),
      λ ((stored, of), assigned). sorted.1 (third.1 (second.1 (first.1 stored, of), assigned)),
    )

-- The list of cases is complete and exact: a case is in it if and only if it is stored, belongs to
-- the tenant and the environment that are asked for, has the status that is asked for, if one is, and
-- is assigned to the asking member of staff, or to nobody, if that is asked for.
pub list_cases_iff :
    (le : Timestamp → Timestamp → Bool) (s : Store) (input : ListInput) (c : HumanCase)
    → Mem c (list_cases le s input) ↔ (Mem c (values s.cases) × IsListed input c)
list_cases_iff le s input c =
    let parts = mem_list-parts le s input c in
    let tenant = str_eq_iff c.tenant_id input.tenant_id in
    let environment = str_eq_iff c.environment_id input.environment_id in
    let status = has_status_iff input.status c in
    let assignee = has_assignee_iff input.assignee input.staff_id c in
    (
      λ m.
          let (((stored, here), of), assigned) = parts.0 m in
          let (t, e) = and_parts (str_eq c.tenant_id input.tenant_id) _ here in
          let (mine, free) = assignee.0 assigned in
          (
            stored,
            record {
              tenant = tenant.0 t;
              environment = environment.0 e;
              status = status.0 of;
              mine = mine;
              free = free;
            },
          ),
      λ (stored, l).
          let t = tenant.1 l.tenant in
          let e = environment.1 l.environment in
          parts.1 (((stored, rw t e), status.1 l.status), assignee.1 (l.mine, l.free)),
    )

snapshot_of-count :
    (supply : Supply) (s : Store) (es : List HumanDecisionOutboxEvent)
    → (snapshot_of supply s es).0.pending_count ≡ length es
snapshot_of-count supply s [] = refl
snapshot_of-count supply s (e ∷ es) = refl

-- An outbox event of the tenant's environment.
pub record IsPendingAt (tenant environment : String) (e : HumanDecisionOutboxEvent) : Type 0 where
  pub here : e.tenant_id ≡ tenant
  pub there : e.environment_id ≡ environment

mem_listed_iff :
    (s : Store) (tenant environment : String) (e : HumanDecisionOutboxEvent)
    → Mem e (listed_events s tenant environment)
      ↔ (Mem e (values s.outbox) × IsPendingAt tenant environment e)
mem_listed_iff s tenant environment e =
    let kept =
      mem-keep
        (λ (x : HumanDecisionOutboxEvent).
          str_eq x.tenant_id tenant && str_eq x.environment_id environment)
        (values s.outbox) e in
    let t = str_eq_iff e.tenant_id tenant in
    let v = str_eq_iff e.environment_id environment in
    (
      λ m.
          let (stored, at_place) = kept.0 m in
          let (is_t, is_v) = and_parts (str_eq e.tenant_id tenant) _ at_place in
          (stored, record { here = t.0 is_t; there = v.0 is_v }),
      λ (stored, is).
          let a = t.1 is.here in let b = v.1 is.there in kept.1 (stored, rw (a, b) refl),
    )

-- The list of the pending decisions and the snapshot agree, and neither looks beyond the tenant's
-- environment: whatever the limit is, the list has as many events as the snapshot counts, and as many
-- as the limit when it counts more, and each of them is of the tenant's environment; and with the
-- count as the limit, an event is listed if and only if it is stored in the outbox and of the tenant's
-- environment.
pub list_pending_outbox_iff :
    (le : Timestamp → Timestamp → Bool) (supply : Supply) (s : Store) (tenant environment : String)
    (limit : ℕ) (e : HumanDecisionOutboxEvent)
    → (let count = (pending_decision_outbox_snapshot supply s tenant environment).0.pending_count in
        let listed = list_pending_outbox le s tenant environment in
        (length (listed limit) ≡ (if leb limit count then limit else count))
        × All (IsPendingAt tenant environment) (listed limit)
        × (Mem e (listed count) ↔ (Mem e (values s.outbox) × IsPendingAt tenant environment e)))
unfolding list_pending_outbox pending_decision_outbox_snapshot
list_pending_outbox_iff le supply s tenant environment limit e =
    let es = listed_events s tenant environment in
    let oldest = λ (l r : HumanDecisionOutboxEvent). le l.created_at r.created_at in
    let sorted = sort_by oldest es in
    let count = (snapshot_of supply s (counted_events s tenant environment)).0.pending_count in
    let same : length sorted ≡ count =
      length-sort_by oldest es ∙ sym (snapshot_of-count supply s es) in
    let in_sorted =
      λ (x : HumanDecisionOutboxEvent). Perm.mem_iff {a = x} (sort_by-perm oldest es) in
    let whole : take count sorted ≡ sorted = take-all count sorted (omega arith) in
    let listed = mem_listed_iff s tenant environment in
    (
      length-take limit sorted ∙ ap (λ n. if leb limit n then limit else n) same,
      All-mem (IsPendingAt tenant environment) (take limit sorted)
          (λ x m. ((listed x).0 ((in_sorted x).0 (mem_take limit sorted x m))).1),
      (
        λ m. (listed e).0 ((in_sorted e).0 (subst (Mem e) whole m)),
        λ is. subst (Mem e) (sym whole) ((in_sorted e).1 ((listed e).1 is)),
      ),
    )
