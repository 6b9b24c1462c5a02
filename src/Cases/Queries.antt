-- ===== src/Cases/Queries.antt =====
-- The queries of `InMemoryHumanCaseRepository` in
-- apps/services/human-operations/src/human-case-repository.ts.
pub mod Laws
use customer_service_os_lite.Common.{
  ℕ, ◌+◌, ◌-◌, Bool, true, false, ◌&&◌, Option, none, some, List, [], ◌∷◌, map, String, str_eq,
  is_none, leb, if◌then◌else◌, Result, ok, err, ◌>>=◌,
}
use customer_service_os_lite.Common.Dates.{Timestamp, date_parse}
use customer_service_os_lite.Common.Lists.{length, keep, take}
use customer_service_os_lite.Common.Maps.{map_get}
use customer_service_os_lite.Common.Sort.{sort_by}
use customer_service_os_lite.Cases.Types.{
  HumanCase, HumanCaseStatus, is_open, claimed, decision_pending, closed, HumanCaseAuditEvent,
  HumanDecisionOutboxEvent, CaseError,
}
use customer_service_os_lite.Cases.Store.{Store, Supply, require_case, is_staff}

pub data Assignee : Type 0 where
  me unassigned : Assignee

pub record ListInput : Type 0 where
  pub tenant_id : String
  pub environment_id : String
  pub status : Option HumanCaseStatus
  pub assignee : Option Assignee
  pub staff_id : String

-- `[...map.values()]`
abbrev pub values {ℓ} : {V : Type ℓ} → List (String × V) → List V
values = map (λ entry. entry.1)

abbrev pub same_case_status : HumanCaseStatus → HumanCaseStatus → Bool
same_case_status is_open is_open = true
same_case_status claimed claimed = true
same_case_status decision_pending decision_pending = true
same_case_status closed closed = true
same_case_status _ _ = false

-- The three filters of `list`.
abbrev pub case_is_at : String → String → HumanCase → Bool
case_is_at tenant environment c = str_eq c.tenant_id tenant && str_eq c.environment_id environment

abbrev pub has_status : Option HumanCaseStatus → HumanCase → Bool
has_status none c = true
has_status (some status) c = same_case_status c.status status

abbrev pub has_assignee : Option Assignee → String → HumanCase → Bool
has_assignee none staff_id c = true
has_assignee (some Assignee.me) staff_id c = is_staff c.assigned_staff_id staff_id
has_assignee (some Assignee.unassigned) staff_id c = is_none c.assigned_staff_id

unfoldable pub get_case : Store → String → String → String → Result CaseError HumanCase
get_case s case_id tenant environment = require_case s case_id tenant environment

unfoldable pub audit_events_of :
    Store → String → String → String → Result CaseError (List HumanCaseAuditEvent)
audit_events_of s case_id tenant environment =
    require_case s case_id tenant environment >>= λ found.
    ok (elim (map_get case_id s.audit_events) [ none ↦ [] | some events ↦ events ])

-- The filter of `listPendingOutbox`, in the order of the map.
abbrev pub listed_events : Store → String → String → List HumanDecisionOutboxEvent
listed_events s tenant environment =
    keep
      (λ (e : HumanDecisionOutboxEvent).
        str_eq e.tenant_id tenant && str_eq e.environment_id environment)
      (values s.outbox)

-- The filter of `getPendingDecisionOutboxSnapshot`.
abbrev pub counted_events : Store → String → String → List HumanDecisionOutboxEvent
counted_events s tenant environment =
    keep
      (λ (e : HumanDecisionOutboxEvent).
        str_eq e.tenant_id tenant && str_eq e.environment_id environment)
      (values s.outbox)

-- The order of `localeCompare` on the texts of instants: `locale_le l r` is `l.localeCompare(r) <= 0`.
module _ (locale_le : Timestamp → Timestamp → Bool) where
  unfoldable pub list_cases : Store → ListInput → List HumanCase
  list_cases s input =
      sort_by (λ (left right : HumanCase). locale_le right.updated_at left.updated_at)
        (keep (has_assignee input.assignee input.staff_id) (
          keep (has_status input.status)
            (keep (case_is_at input.tenant_id input.environment_id) (values s.cases))))

  unfoldable pub list_pending_outbox : Store → String → String → ℕ → List HumanDecisionOutboxEvent
  list_pending_outbox s tenant environment limit = take limit (
      sort_by
        (λ (left right : HumanDecisionOutboxEvent). locale_le left.created_at right.created_at)
        (listed_events s tenant environment))

-- The age is in thousandths of a second; `none` is NaN.
pub record PendingDecisionOutboxSnapshot : Type 0 where
  pub pending_count : ℕ
  pub oldest_pending_age : Option ℕ

-- `Math.min` over the instants that `Date.parse` reads; one that it rejects makes the result NaN.
abbrev pub earliest : Timestamp → List Timestamp → Option ℕ
earliest t [] = date_parse t
earliest t (u ∷ us) =
    let rest = earliest u us in
    elim (date_parse t) [
      | none ↦ none
      | some m ↦ elim rest [ none ↦ none | some n ↦ some (if leb m n then m else n) ]
    ]

-- `Math.max(0, now - oldest)`
abbrev pub age_at : Timestamp → Option ℕ → Option ℕ
age_at now none = none
age_at now (some oldest) = elim (date_parse now) [ none ↦ none | some n ↦ some (n - oldest) ]

-- The clock is read when there is an event.
abbrev pub snapshot_of :
    Supply → Store → List HumanDecisionOutboxEvent → PendingDecisionOutboxSnapshot × Store
snapshot_of supply s [] = (record { pending_count = 0; oldest_pending_age = some 0 }, s)
snapshot_of supply s (e ∷ es) = (
  record {
    pending_count = length (e ∷ es);
    oldest_pending_age =
        age_at (supply.now s.clock_reads)
          (earliest e.created_at (map (λ (x : HumanDecisionOutboxEvent). x.created_at) es));
  },
  record s { clock_reads = s.clock_reads + 1 },
)

unfoldable pub pending_decision_outbox_snapshot :
    Supply → Store → String → String → PendingDecisionOutboxSnapshot × Store
pending_decision_outbox_snapshot supply s tenant environment =
    snapshot_of supply s (counted_events s tenant environment)
