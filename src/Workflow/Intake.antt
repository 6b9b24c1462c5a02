-- ===== src/Workflow/Intake.antt =====
-- `refundWorkflow` of apps/services/workflow-workers/src/refund-workflow.ts, from its start to the
-- decision that its `switch` looks at, with the collection of photo evidence.
pub mod Budget
pub mod Consent
use customer_service_os_lite.Common.{
  ℕ, ◌+◌, ◌-◌, ◌*◌, Bool, true, false, not, ◌&&◌, ◌||◌, Option, none, some, List, [], ◌∷◌, String,
  str_eq, leb, ltb, is_none, if◌then◌else◌,
}
use customer_service_os_lite.Policy.Types.{RefundPolicyDecision, PolicyEffect, MissingFact}
use customer_service_os_lite.Journey.Types.{RefundContext, AcceptedDamageEvidence}
use customer_service_os_lite.Workflow.Types.{
  Assessment, EvidenceSnapshot, EvidenceRecovery, RefundWorkflowRequest, RefundWorkflowState, Stage,
  EvidenceOutcome, Command, Resolution, IntakePoint, Point, Config, Reaction, just, finish,
}
use customer_service_os_lite.Workflow.Settle.{reconcile_pending_refund}
use customer_service_os_lite.Workflow.Offer.{switch_effect}

-- 24 hours, 30 seconds, and the polls of a run
abbrev pub evidence_window : ℕ
evidence_window = 24 * 60 * 60000

abbrev pub poll_interval : ℕ
poll_interval = 30000

abbrev pub max_polls : ℕ
max_polls = 120

pub is_damage_photo : List MissingFact → Bool
is_damage_photo (MissingFact.damage_photo ∷ []) = true
is_damage_photo _ = false

pub is_needs_facts : PolicyEffect → Bool
is_needs_facts PolicyEffect.needs_facts = true
is_needs_facts _ = false

-- The test under which photo evidence is collected.
pub wants_photo : RefundWorkflowRequest → RefundPolicyDecision → Bool
unfolding is_damage_photo is_needs_facts
wants_photo request d =
    str_eq request.policy_version "refund-policy-v2"
    && (is_needs_facts d.effect && is_damage_photo d.missing_facts)

pub after_first_decision :
    RefundWorkflowRequest → Config → RefundContext → RefundPolicyDecision → Reaction
unfolding wants_photo
after_first_decision request c context d =
    if wants_photo request d
    then (
      record c { point = Point.intake (IntakePoint.opening_evidence context d) },
      Command.open_evidence d ∷ [],
    )
    else switch_effect c context d d.effect

pub is_more_required : Assessment → Bool
is_more_required Assessment.more_required = true
is_more_required _ = false

pub collection_stage : EvidenceSnapshot → Stage
unfolding is_more_required
collection_stage e =
    if not (is_more_required e.assessment) && (ltb 0 e.ready_count || ltb 0 e.processing_count)
    then Stage.awaiting_evidence_review
    else Stage.awaiting_customer_evidence

pub expire_evidence : Config → RefundPolicyDecision → EvidenceSnapshot → Reaction
expire_evidence c d e = (
  record c { point = Point.intake (IntakePoint.expiring d) },
  Command.close_evidence e.case_id EvidenceOutcome.evidence_collection_expired ∷ [],
)

abbrev min_ms : ℕ → ℕ → ℕ
min_ms a b = if ltb a b then a else b

-- The head of the polling loop, at a snapshot that has just come, and what follows the loop.
pub collect_evidence : Config → RefundPolicyDecision → EvidenceSnapshot → ℕ → ℕ → ℕ → Reaction
unfolding expire_evidence collection_stage
collect_evidence c₀ d e deadline polls now =
    let c = record c₀ { evidence = some e } in
    if leb deadline now then expire_evidence c d e else elim e.accepted [
      | none ↦ (
        record c {
          point = Point.intake (IntakePoint.sleeping d deadline polls);
          state = just (collection_stage e) d;
        },
        Command.start_timer (min_ms poll_interval (deadline - now)) ∷ [],
      )
      | some a ↦ (
        record c { point = Point.intake (IntakePoint.refreshing e) },
        Command.refresh_context ∷ [],
      )
    ]

-- `request.evidenceRecovery?.deadline ?? Date.now() + 24 * 60 * 60_000`
pub evidence_deadline : RefundWorkflowRequest → ℕ → ℕ
evidence_deadline request now = elim request.evidence_recovery [
  | none ↦ now + evidence_window
  | some r ↦ r.deadline
]

-- Behind a poll: `continueAsNew` bounds the history of a run.
pub after_poll :
    RefundWorkflowRequest → Config → RefundPolicyDecision → EvidenceSnapshot → ℕ → ℕ → ℕ → Reaction
unfolding collect_evidence
after_poll request c d e deadline polls now =
    if leb max_polls (polls + 1) && (is_none e.accepted && ltb now deadline)
    then (
      record c {
        point = Point.continued (record request {
          evidence_recovery = some (record { deadline = deadline; decision = d });
        });
        evidence = some e;
      },
      [],
    )
    else collect_evidence c d e deadline (polls + 1) now

pub closes_evidence : PolicyEffect → Bool
closes_evidence PolicyEffect.allow = true
closes_evidence PolicyEffect.deny = true
closes_evidence PolicyEffect.needs_facts = true
closes_evidence _ = false

-- Behind the evaluation with the accepted evidence.
pub after_second_decision :
    Config → EvidenceSnapshot → RefundContext → RefundPolicyDecision → Reaction
unfolding closes_evidence
after_second_decision c e context d =
    if closes_evidence d.effect
    then (
      record c { point = Point.intake (IntakePoint.completing e context d) },
      Command.close_evidence e.case_id EvidenceOutcome.evidence_review_completed ∷ [],
    )
    else switch_effect c context d d.effect

pub context_arrived : RefundWorkflowRequest → Config → RefundContext → Reaction
unfolding after_first_decision
context_arrived request c context = elim request.evidence_recovery [
  | none ↦ (
    record c { point = Point.intake (IntakePoint.evaluating context) },
    Command.evaluate_policy context none ∷ [],
  )
  | some r ↦ after_first_decision request c context r.decision
]

-- One resolved await of this phase.
unfoldable pub resume_intake :
    RefundWorkflowRequest → Config → ℕ → IntakePoint → Resolution → Reaction
unfolding context_arrived after_first_decision collect_evidence evidence_deadline after_poll
    after_second_decision
resume_intake request c now IntakePoint.reading_context (Resolution.context_read context) =
    context_arrived request c context
resume_intake request c now (IntakePoint.evaluating context) (Resolution.policy_decided d) =
    after_first_decision request c context d
resume_intake request c now (IntakePoint.opening_evidence context d) (Resolution.evidence_read e) =
    collect_evidence c d e (evidence_deadline request now) 0 now
resume_intake request c now (IntakePoint.sleeping d deadline polls) Resolution.timer_fired = (
  record c { point = Point.intake (IntakePoint.reading_evidence d deadline polls) },
  Command.read_evidence ∷ [],
)
resume_intake request c now (IntakePoint.reading_evidence d deadline polls)
      (Resolution.evidence_read e) =
    after_poll request c d e deadline polls now
resume_intake request c now (IntakePoint.expiring d) Resolution.evidence_closed =
    finish c (just Stage.evidence_collection_expired d)
resume_intake request c now (IntakePoint.refreshing e) (Resolution.context_read context) = (
  record c { point = Point.intake (IntakePoint.reevaluating e context) },
  Command.evaluate_policy context e.accepted ∷ [],
)
resume_intake request c now (IntakePoint.reevaluating e context) (Resolution.policy_decided d) =
    after_second_decision c e context d
resume_intake request c now (IntakePoint.completing e context d) Resolution.evidence_closed =
    switch_effect c context d d.effect
resume_intake request c now at Resolution.activity_failed = (record c { point = Point.thrown }, [])
resume_intake request c now at _ = (c, [])

abbrev evaluating_state : RefundWorkflowState
evaluating_state = record {
  stage = Stage.evaluating;
  decision = none;
  preview = none;
  provider_refund_id = none;
}

abbrev fresh : Config
fresh = record {
  point = Point.intake IntakePoint.reading_context;
  state = evaluating_state;
  evidence = none;
  human_decision = none;
  provider_outcome = none;
  early_confirmations = [];
  early_decisions = [];
  early_outcomes = [];
}

-- The start of a run, up to its first await.
unfoldable pub start : RefundWorkflowRequest → Reaction
start request = elim request.recovery [
  | none ↦ (fresh, Command.refresh_context ∷ [])
  | some r ↦
      reconcile_pending_refund
        (record fresh {
          state = record {
            stage = Stage.pending_reconciliation;
            decision = some r.decision;
            preview = some r.preview;
            provider_refund_id = none;
          };
        })
        r.decision r.preview r.attempts_in_run
]
