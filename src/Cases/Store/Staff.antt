-- ===== src/Cases/Store/Staff.antt =====
-- The operations of `InMemoryHumanCaseRepository` that staff starts (`claim`, `reassign`, `decide`),
-- and its outbox.
pub mod Replay
pub mod Writes
use customer_service_os_lite.Common.{
  ℕ, ◌+◌, Bool, true, false, not, ◌&&◌, ◌||◌, Option, none, some, List, [], ◌∷◌, String, str_eq,
  template, decimal, is_none, if◌then◌else◌, Result, ok, err, ◌>>=◌, ◌>>◌, throw_if,
}
use customer_service_os_lite.Common.Maps.{map_get, map_set, map_delete}
use customer_service_os_lite.Common.Dates.{Timestamp}
use customer_service_os_lite.Cases.Types.{
  claimed, decision_pending, HumanCaseStatus, HumanDecision, HumanCase, AuditEventType, ActorType,
  HumanDecisionOutboxEvent, CaseError, ClaimHumanCaseInput, ReassignHumanCaseInput,
  DecideHumanCaseInput, includes_decision,
}
use customer_service_os_lite.Cases.Store.{
  StoredIdempotency, Store, Supply, Answer, is_settled, is_claimed, is_staff, decision_text,
  require_case, assert_version, replay, remember, update, append_audit,
}

abbrev text_or_empty : Option String → String
text_or_empty none = ""
text_or_empty (some s) = s

-- `value.outboxEvent` of what was remembered
abbrev pub outbox_of :
    Option StoredIdempotency → Option (StoredIdempotency × HumanDecisionOutboxEvent)
outbox_of none = none
outbox_of (some value) = elim value.outbox_event [ none ↦ none | some e ↦ some (value, e) ]

pub claim_fingerprint : ClaimHumanCaseInput → String
claim_fingerprint input =
    template ("claim:" ∷ decimal input.expected_case_version ∷ ":" ∷ input.staff_id ∷ [])

pub reassign_fingerprint : ReassignHumanCaseInput → String
reassign_fingerprint input =
    template
      ("reassign:" ∷ decimal input.expected_case_version ∷ ":" ∷ input.assigned_staff_id ∷ [])

pub decide_fingerprint : DecideHumanCaseInput → String
unfolding decision_text
decide_fingerprint input = template (
    "decision:"
    ∷ decimal input.expected_case_version
    ∷ ":"
    ∷ input.staff_id
    ∷ ":"
    ∷ decision_text input.decision
    ∷ ":"
    ∷ text_or_empty input.reason_code
    ∷ ":"
    ∷ text_or_empty input.note
    ∷ [])

module _ (supply : Supply) where
  pub claim_for : Store → ClaimHumanCaseInput → HumanCase → HumanCase × Store
  unfolding update append_audit
  claim_for s input current =
      let (next, stored) =
        update supply s
          (record current { status = claimed; assigned_staff_id = some input.staff_id }) in
      (
        next,
        append_audit supply stored next AuditEventType.case_claimed ActorType.human input.staff_id
            [],
      )

  -- A claim by the staff that holds the case writes nothing.
  pub claiming : Store → ClaimHumanCaseInput → HumanCase → HumanCase × Store
  unfolding is_staff claim_for
  claiming s input current =
      if is_staff current.assigned_staff_id input.staff_id
      then (current, s)
      else claim_for s input current

  abbrev pub without_event : String → HumanCase → StoredIdempotency
  without_event fingerprint c = record {
    fingerprint = fingerprint;
    case_id = c.case_id;
    outbox_event = none;
  }

  pub claim_fresh : Store → ClaimHumanCaseInput → Answer HumanCase
  unfolding require_case assert_version is_settled is_staff claiming claim_fingerprint remember
  claim_fresh s input =
      require_case s input.case_id input.tenant_id input.environment_id >>= λ current.
      assert_version current input.expected_case_version
      >> throw_if (is_settled current.status) CaseError.case_conflict
      >> throw_if
          (not (is_none current.assigned_staff_id)
            && not (is_staff current.assigned_staff_id input.staff_id))
          CaseError.case_conflict
      >> (let (next, stored) = claiming s input current in
          ok (
            next,
            remember stored input.idempotency_key (without_event (claim_fingerprint input) next),
          ))

  unfoldable pub claim : Store → ClaimHumanCaseInput → Answer HumanCase
  unfolding replay claim_fingerprint require_case claim_fresh
  claim s input = replay s input.idempotency_key (claim_fingerprint input) >>= λ replayed.
      elim replayed [
        | some value ↦
            require_case s value.case_id input.tenant_id input.environment_id >>= λ c. ok (c, s)
        | none ↦ claim_fresh s input
      ]

  pub reassigning : Store → ReassignHumanCaseInput → HumanCase → HumanCase × Store
  unfolding update append_audit
  reassigning s input current =
      let (next, stored) =
        update supply s
          (record current { status = claimed; assigned_staff_id = some input.assigned_staff_id }) in
      (
        next,
        append_audit supply stored next AuditEventType.case_claimed ActorType.human
            input.assigned_staff_id (("reassigned", "true") ∷ []),
      )

  pub reassign_fresh : Store → ReassignHumanCaseInput → Answer HumanCase
  unfolding require_case assert_version is_settled reassigning reassign_fingerprint remember
  reassign_fresh s input =
      require_case s input.case_id input.tenant_id input.environment_id >>= λ current.
      assert_version current input.expected_case_version
      >> throw_if (is_settled current.status) CaseError.case_conflict
      >> (let (next, stored) = reassigning s input current in
          ok (
            next,
            remember stored input.idempotency_key (without_event (reassign_fingerprint input) next),
          ))

  unfoldable pub reassign : Store → ReassignHumanCaseInput → Answer HumanCase
  unfolding replay reassign_fingerprint require_case reassign_fresh
  reassign s input = replay s input.idempotency_key (reassign_fingerprint input) >>= λ replayed.
      elim replayed [
        | some value ↦
            require_case s value.case_id input.tenant_id input.environment_id >>= λ c. ok (c, s)
        | none ↦ reassign_fresh s input
      ]

  abbrev pub outbox_event_of :
      Store → DecideHumanCaseInput → HumanCase → Timestamp → HumanDecisionOutboxEvent
  outbox_event_of s input next decided_at = record {
    event_id = template ("outbox-" ∷ supply.ids s.ids_taken ∷ []);
    case_id = next.case_id;
    workflow_id = next.workflow_id;
    tenant_id = next.tenant_id;
    environment_id = next.environment_id;
    decision = input.decision;
    decided_by = input.staff_id;
    decided_at = decided_at;
    reason_code = input.reason_code;
    note = input.note;
    created_at = decided_at;
  }

  unfoldable pub deciding :
      Store → DecideHumanCaseInput → HumanCase → (HumanCase × HumanDecisionOutboxEvent) × Store
  unfolding update append_audit decide_fingerprint remember decision_text
  deciding s input current =
      let decided_at = supply.now s.clock_reads in
      let (next, stored) =
        update supply (record s { clock_reads = s.clock_reads + 1 })
          (record current { status = decision_pending; decided_at = some decided_at }) in
      let event = outbox_event_of stored input next decided_at in
      let written : Store = record stored {
        outbox = map_set event.event_id event stored.outbox;
        ids_taken = stored.ids_taken + 1;
      } in
      let audited =
        append_audit supply written next AuditEventType.decision_recorded ActorType.human
          input.staff_id (("decision", decision_text input.decision) ∷ []) in
      (
        (next, event),
        remember audited input.idempotency_key (record {
          fingerprint = decide_fingerprint input;
          case_id = next.case_id;
          outbox_event = some event;
        }),
      )

  pub decide_fresh : Store → DecideHumanCaseInput → Answer (HumanCase × HumanDecisionOutboxEvent)
  unfolding require_case assert_version is_claimed is_staff includes_decision deciding
  decide_fresh s input =
      require_case s input.case_id input.tenant_id input.environment_id >>= λ current.
      assert_version current input.expected_case_version
      >> throw_if
          (not (is_claimed current.status)
            || (not (is_staff current.assigned_staff_id input.staff_id)
                || not (includes_decision current.allowed_actions input.decision)))
          CaseError.case_conflict
      >> ok (deciding s input current)

  unfoldable pub decide :
      Store → DecideHumanCaseInput → Answer (HumanCase × HumanDecisionOutboxEvent)
  unfolding replay decide_fingerprint require_case decide_fresh
  decide s input = replay s input.idempotency_key (decide_fingerprint input) >>= λ replayed.
      elim (outbox_of replayed) [
        | some (value, event) ↦
            require_case s value.case_id input.tenant_id input.environment_id >>= λ c.
            ok ((c, event), s)
        | none ↦ decide_fresh s input
      ]

-- `event?.tenantId === tenant && event.environmentId === environment`
pub is_outbox_pending : Store → String → String → String → Bool
is_outbox_pending s event_id tenant environment = elim (map_get event_id s.outbox) [
  | none ↦ false
  | some e ↦ str_eq e.tenant_id tenant && str_eq e.environment_id environment
]

unfoldable pub mark_outbox_delivered : Store → String → String → String → Store
unfolding is_outbox_pending
mark_outbox_delivered s event_id tenant environment =
    if is_outbox_pending s event_id tenant environment
    then record s { outbox = map_delete event_id s.outbox }
    else s
