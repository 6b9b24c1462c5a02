-- ===== src/Cases/Store.antt =====
-- `InMemoryHumanCaseRepository` of apps/services/human-operations/src/human-case-repository.ts. Its
-- clock and its source of ids are streams that are read in order; every throw comes before the first
-- write, so that an error leaves the store as it was.
pub mod Staff
use Prim.Native.Char.{nul}
use customer_service_os_lite.Common.{
  ℕ, ◌+◌, Bool, true, false, not, ◌&&◌, ◌||◌, Option, none, some, List, [], ◌∷◌, ◌++◌, String,
  str_eq, template, decimal, ◌==◌, is_none, if◌then◌else◌, Result, ok, err, ◌>>=◌, ◌>>◌, throw_if,
  or_throw,
}
use customer_service_os_lite.Common.Maps.{map_get, map_set, map_delete}
use customer_service_os_lite.Common.Dates.{Timestamp}
use customer_service_os_lite.Cases.Types.{
  HumanCaseType, HumanCaseStatus, is_open, claimed, decision_pending, closed, HumanDecision,
  HumanCase, AuditEventType, ActorType, HumanCaseAuditEvent, HumanDecisionOutboxEvent, CaseError,
  EvidenceOutcome, OpenHumanCaseInput, CloseHumanCaseInput, ClaimHumanCaseInput,
  ReassignHumanCaseInput, DecideHumanCaseInput, same_case_type, allowed_actions_for_case_type,
  includes_decision,
}

pub record StoredIdempotency : Type 0 where
  pub fingerprint : String
  pub case_id : String
  pub outbox_event : Option HumanDecisionOutboxEvent

pub record Store : Type 0 where
  pub cases : List (String × HumanCase)
  pub workflow_index : List (String × String)
  pub audit_events : List (String × List HumanCaseAuditEvent)
  pub idempotency : List (String × StoredIdempotency)
  pub outbox : List (String × HumanDecisionOutboxEvent)
  pub ids_taken : ℕ
  pub clock_reads : ℕ

-- What the constructor is given.
pub record Supply : Type 0 where
  pub ids : ℕ → String
  pub now : ℕ → Timestamp

abbrev pub Answer : Type 0 → Type 0
Answer A = Result CaseError (A × Store)

pub is_closed : HumanCaseStatus → Bool
is_closed closed = true
is_closed _ = false

pub is_settled : HumanCaseStatus → Bool
is_settled closed = true
is_settled decision_pending = true
is_settled _ = false

pub is_claimed : HumanCaseStatus → Bool
is_claimed claimed = true
is_claimed _ = false

-- `assignedStaffId === staffId`
unfoldable pub is_staff : Option String → String → Bool
is_staff none staff = false
is_staff (some s) staff = str_eq s staff

pub decision_text : HumanDecision → String
decision_text HumanDecision.approve = "APPROVE"
decision_text HumanDecision.reject = "REJECT"
decision_text HumanDecision.resolve_takeover = "RESOLVE_TAKEOVER"
decision_text HumanDecision.approve_exceptional_refund = "APPROVE_EXCEPTIONAL_REFUND"

pub case_type_text : HumanCaseType → String
case_type_text HumanCaseType.refund_approval = "REFUND_APPROVAL"
case_type_text HumanCaseType.refund_takeover = "REFUND_TAKEOVER"
case_type_text HumanCaseType.refund_evidence_review = "REFUND_EVIDENCE_REVIEW"

pub outcome_details : Option EvidenceOutcome → List (String × String)
outcome_details none = []
outcome_details (some EvidenceOutcome.evidence_review_completed) =
    ("outcome", "EVIDENCE_REVIEW_COMPLETED") ∷ []
outcome_details (some EvidenceOutcome.evidence_collection_expired) =
    ("outcome", "EVIDENCE_COLLECTION_EXPIRED") ∷ []

pub workflow_key : String → String → String → String
workflow_key tenant environment workflow =
    let separator = String.◌∷◌ nul "" in
    template (tenant ∷ separator ∷ environment ∷ separator ∷ workflow ∷ [])

pub require_case : Store → String → String → String → Result CaseError HumanCase
require_case s case_id tenant environment = elim (map_get case_id s.cases) [
  | none ↦ err CaseError.case_not_found
  | some c ↦
      if not (str_eq c.tenant_id tenant) || not (str_eq c.environment_id environment)
      then err CaseError.case_not_found
      else ok c
]

pub assert_version : HumanCase → ℕ → Result CaseError (Unit {0})
assert_version c expected = throw_if (not (c.case_version == expected)) CaseError.stale_case_version

pub replay : Store → String → String → Result CaseError (Option StoredIdempotency)
replay s key fingerprint = elim (map_get key s.idempotency) [
  | none ↦ ok none
  | some existing ↦
      if not (str_eq existing.fingerprint fingerprint)
      then err CaseError.idempotency_conflict
      else ok (some existing)
]

pub remember : Store → String → StoredIdempotency → Store
remember s key value = record s { idempotency = map_set key value s.idempotency }

module _ (supply : Supply) where
  -- The case with the patch applied goes in, the case with its new version comes out.
  pub update : Store → HumanCase → HumanCase × Store
  update s patched =
      let next : HumanCase = record patched {
        case_version = patched.case_version + 1;
        updated_at = supply.now s.clock_reads;
      } in
      (
        next,
        record s { cases = map_set next.case_id next s.cases; clock_reads = s.clock_reads + 1 },
      )

  pub append_audit :
      Store → HumanCase → AuditEventType → ActorType → String → List (String × String) → Store
  append_audit s c event_type actor_type actor_id details =
      let events : List HumanCaseAuditEvent = elim (map_get c.case_id s.audit_events) [
        | none ↦ []
        | some es ↦ es
      ] in
      let event : HumanCaseAuditEvent = record {
        event_id = template ("audit-" ∷ supply.ids s.ids_taken ∷ []);
        case_id = c.case_id;
        event_type = event_type;
        occurred_at = supply.now s.clock_reads;
        actor_type = actor_type;
        actor_id = actor_id;
        case_version = c.case_version;
        details = details;
      } in
      record s {
        audit_events = map_set c.case_id (events ++ event ∷ []) s.audit_events;
        ids_taken = s.ids_taken + 1;
        clock_reads = s.clock_reads + 1;
      }

  -- The case that `open` makes, and the store with it.
  pub opened : Store → OpenHumanCaseInput → String → HumanCase × Store
  unfolding append_audit allowed_actions_for_case_type case_type_text
  opened s input key =
      let timestamp = supply.now s.clock_reads in
      let c : HumanCase = record {
        case_id = template ("case-" ∷ supply.ids s.ids_taken ∷ []);
        tenant_id = input.tenant_id;
        environment_id = input.environment_id;
        workflow_id = input.workflow_id;
        case_type = input.case_type;
        status = is_open;
        allowed_actions = allowed_actions_for_case_type input.case_type;
        assigned_staff_id = none;
        case_version = 1;
        review_packet = input.review_packet;
        policy_version = input.policy_version;
        created_at = timestamp;
        updated_at = timestamp;
        decided_at = none;
      } in
      let stored : Store = record s {
        cases = map_set c.case_id c s.cases;
        workflow_index = map_set key c.case_id s.workflow_index;
        ids_taken = s.ids_taken + 1;
        clock_reads = s.clock_reads + 1;
      } in
      (
        c,
        append_audit stored c AuditEventType.case_opened ActorType.workflow input.workflow_id
            (("case_type", case_type_text input.case_type) ∷ []),
      )

  pub open_existing : Store → OpenHumanCaseInput → String → Answer HumanCase
  unfolding same_case_type
  open_existing s input id = or_throw (map_get id s.cases) CaseError.index_invariant >>= λ existing.
      throw_if
        (not (same_case_type existing.case_type input.case_type)
          || not (str_eq existing.policy_version input.policy_version))
        CaseError.case_conflict
      >> ok (existing, s)

  -- A case id is never the empty text.
  unfoldable pub open_case : Store → OpenHumanCaseInput → Answer HumanCase
  unfolding workflow_key opened open_existing
  open_case s input =
      let key = workflow_key input.tenant_id input.environment_id input.workflow_id in
      elim (map_get key s.workflow_index) [
        | none ↦ ok (opened s input key)
        | some id ↦ open_existing s input id
      ]

  pub closing : Store → CloseHumanCaseInput → HumanCase → HumanCase × Store
  unfolding update append_audit outcome_details
  closing s input current =
      let (next, stored) = update s (record current { status = closed }) in
      (
        next,
        append_audit stored next AuditEventType.case_closed ActorType.workflow input.workflow_id
            (outcome_details input.outcome),
      )

  unfoldable pub close_case : Store → CloseHumanCaseInput → Answer HumanCase
  unfolding require_case closing is_closed
  close_case s input =
      require_case s input.case_id input.tenant_id input.environment_id >>= λ current.
      throw_if (not (str_eq current.workflow_id input.workflow_id)) CaseError.case_not_found
      >> (if is_closed current.status then ok (current, s) else ok (closing s input current))
