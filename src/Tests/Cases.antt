-- ===== src/Tests/Cases.antt =====
-- Tests of apps/services/human-operations/src/human-case-repository.ts: a case is opened, claimed and
-- decided.
use Prim.Native.Char.{nul}
use customer_service_os_lite.Cases.Store.{open_case}
use customer_service_os_lite.Cases.Store.Staff.{claim}
use customer_service_os_lite.Cases.Life.{
  Request, Evolves, Distinct, after, run_requests, no_cases, case_life,
}
use customer_service_os_lite.Common.{
  ℕ, zero, suc, ap, List, String, template, ◌≡◌, refl, none, some, [], ◌∷◌, decimal, ok, Bool, true,
  false, leb, if◌then◌else◌, ◌↔◌,
}
use customer_service_os_lite.Common.Maps.{map_get, map_set}
use customer_service_os_lite.Common.Dates.{Timestamp, at, malformed}
use customer_service_os_lite.Common.Lists.{All, length}
use customer_service_os_lite.Common.Sort.{sort_by}
use mathlib.Core.List.{Mem}
use customer_service_os_lite.Cases.Queries.{
  Assignee, ListInput, values, list_cases, list_pending_outbox, pending_decision_outbox_snapshot,
}
use customer_service_os_lite.Cases.Queries.Laws.{
  IsListed, IsPendingAt, list_cases_iff, list_pending_outbox_iff,
}
use customer_service_os_lite.Cases.Types.{
  HumanCase, HumanCaseType, HumanCaseStatus, HumanDecision, HumanDecisionOutboxEvent,
  DecideHumanCaseInput, OpenHumanCaseInput, ClaimHumanCaseInput, includes_decision,
}
use customer_service_os_lite.Cases.Store.{Store, Supply, is_staff}
use customer_service_os_lite.Cases.Store.Staff.{deciding, decide}
use customer_service_os_lite.Cases.Store.Staff.Replay.{
  IsDecidable, IsWritten, decide_authorized, decide_twice,
}

abbrev supply : Supply
supply = record { ids = λ n. decimal n; now = λ n. at n }

abbrev claimed_case : HumanCase
claimed_case = record {
  case_id = "case-0";
  tenant_id = "t";
  environment_id = "e";
  workflow_id = "w";
  case_type = HumanCaseType.refund_approval;
  status = HumanCaseStatus.claimed;
  allowed_actions = HumanDecision.approve ∷ HumanDecision.reject ∷ [];
  assigned_staff_id = some "ada";
  case_version = 2;
  review_packet = record {
    order_reference = none;
    selected_item_ids = none;
    requested_amount = none;
    refund_reason = none;
    policy_reason_codes = [];
    evidence_ids = [];
    knowledge_release_id = none;
    policy_version = "refund-policy-v1";
  };
  policy_version = "refund-policy-v1";
  created_at = at 0;
  updated_at = at 2;
  decided_at = none;
}

abbrev ready : Store
ready = record {
  cases = ("case-0", claimed_case) ∷ [];
  workflow_index = [];
  audit_events = [];
  idempotency = [];
  outbox = [];
  ids_taken = 3;
  clock_reads = 4;
}

abbrev approval : DecideHumanCaseInput
approval = record {
  case_id = "case-0";
  tenant_id = "t";
  environment_id = "e";
  staff_id = "ada";
  decision = HumanDecision.approve;
  reason_code = none;
  note = none;
  expected_case_version = 2;
  idempotency_key = "k2";
}

abbrev answer : (HumanCase × HumanDecisionOutboxEvent) × Store
answer = deciding supply ready approval claimed_case

decided : decide supply ready approval ≡ ok answer
unfolding decide map_get includes_decision
decided = refl

posts_approval : (answer.0.1.decision ≡ HumanDecision.approve) × (answer.0.0.case_version ≡ 3)
unfolding deciding
posts_approval = (refl, refl)

forgotten : map_get approval.idempotency_key ready.idempotency ≡ none
unfolding map_get
forgotten = refl

decide_authorized_example :
    (current : HumanCase) × IsDecidable ready approval current
    × IsWritten supply ready approval current answer
decide_authorized_example = decide_authorized supply ready approval answer forgotten decided

decide_twice_example : decide supply answer.1 approval ≡ ok answer
decide_twice_example = decide_twice supply ready approval answer.0.0 answer.0.1 answer.1 decided

-- Ids that are told apart by their length.
tally : ℕ → String
tally zero = ""
tally (suc n) = String.◌∷◌ nul (tally n)

abbrev distinct_supply : Supply
distinct_supply = record { ids = tally; now = λ n. at n }

distinct : Distinct distinct_supply
unfolding tally
distinct zero zero h = refl
distinct zero (suc n) h = absurd (cc h)
distinct (suc m) zero h = absurd (cc h)
distinct (suc m) (suc n) h = let rest : tally m ≡ tally n = cc h in ap suc (distinct m n rest)

abbrev opening : OpenHumanCaseInput
opening = record {
  tenant_id = "t";
  environment_id = "e";
  workflow_id = "w";
  case_type = HumanCaseType.refund_approval;
  review_packet = claimed_case.review_packet;
  policy_version = "refund-policy-v1";
}

abbrev opened_case : HumanCase
opened_case = record claimed_case {
  case_id = template ("case-" ∷ "" ∷ []);
  status = HumanCaseStatus.is_open;
  assigned_staff_id = none;
  case_version = 1;
  updated_at = at 0;
}

abbrev taking : ClaimHumanCaseInput
taking = record {
  case_id = template ("case-" ∷ "" ∷ []);
  tenant_id = "t";
  environment_id = "e";
  staff_id = "ada";
  expected_case_version = 1;
  idempotency_key = "k1";
}

abbrev opening_calls : List Request
opening_calls = Request.open_for opening ∷ []

abbrev later_calls : List Request
later_calls = Request.claim_case taking ∷ []

is_stored :
    map_get
      (template ("case-" ∷ "" ∷ []))
      (run_requests distinct_supply opening_calls no_cases).cases
    ≡ some opened_case
unfolding run_requests after open_case map_get map_set tally
is_stored = refl

claims :
    map_get
      (template ("case-" ∷ "" ∷ []))
      (run_requests distinct_supply later_calls
        (run_requests distinct_supply opening_calls no_cases)).cases
    ≡ some (record opened_case {
      status = HumanCaseStatus.claimed;
      assigned_staff_id = some "ada";
      case_version = 2;
      updated_at = at 2;
    })
unfolding run_requests after open_case claim map_get map_set tally
claims = refl

case_life_example :
    (d : HumanCase) × (map_get
        (template ("case-" ∷ "" ∷ []))
        (run_requests distinct_supply later_calls
          (run_requests distinct_supply opening_calls no_cases)).cases
      ≡ some d)
    × Evolves opened_case d
case_life_example =
    case_life distinct_supply opening_calls later_calls (template ("case-" ∷ "" ∷ [])) opened_case
      distinct is_stored

-- A time's text comes before another's; what is no time comes first.
abbrev time_le : Timestamp → Timestamp → Bool
time_le (malformed s) t = true
time_le (at m) (malformed s) = false
time_le (at m) (at n) = leb m n

abbrev waiting_case : HumanCase
waiting_case = record claimed_case {
  case_id = "case-1";
  status = HumanCaseStatus.is_open;
  assigned_staff_id = none;
  updated_at = at 7;
}

abbrev two_cases : Store
two_cases = record ready { cases = ("case-0", claimed_case) ∷ ("case-1", waiting_case) ∷ [] }

abbrev everything : ListInput
everything = record {
  tenant_id = "t";
  environment_id = "e";
  status = none;
  assignee = none;
  staff_id = "ada";
}

newest_first : list_cases time_le two_cases everything ≡ waiting_case ∷ claimed_case ∷ []
unfolding list_cases sort_by
newest_first = refl

own_cases :
    list_cases time_le two_cases (record everything { assignee = some Assignee.me })
    ≡ claimed_case ∷ []
unfolding list_cases sort_by is_staff
own_cases = refl

list_cases_iff_example :
    Mem waiting_case (list_cases time_le two_cases everything)
    ↔ (Mem waiting_case (values two_cases.cases) × IsListed everything waiting_case)
list_cases_iff_example = list_cases_iff time_le two_cases everything waiting_case

abbrev posted : Store
posted = answer.1

list_pending_outbox_iff_example :
    (let count = (pending_decision_outbox_snapshot supply posted "t" "e").0.pending_count in
      let listed = list_pending_outbox time_le posted "t" "e" in
      (length (listed 5) ≡ (if leb 5 count then 5 else count))
      × All (IsPendingAt "t" "e") (listed 5)
      × (Mem answer.0.1 (listed count)
          ↔ (Mem answer.0.1 (values posted.outbox) × IsPendingAt "t" "e" answer.0.1)))
list_pending_outbox_iff_example = list_pending_outbox_iff time_le supply posted "t" "e" 5 answer.0.1

posted_one :
    (pending_decision_outbox_snapshot supply posted "t" "e").0
    ≡ record { pending_count = 1; oldest_pending_age = some 3 }
unfolding pending_decision_outbox_snapshot deciding map_set
posted_one = refl
