-- ===== src/Workflow/Offer.antt =====
-- The `switch` of `refundWorkflow` in apps/services/workflow-workers/src/refund-workflow.ts, with
-- the wait for the customer's confirmation and the human cases.
pub mod Budget
pub mod Consent
pub mod Decisions
use customer_service_os_lite.Common.{
  ℕ, ◌-◌, Bool, true, false, not, ◌&&◌, Option, none, some, List, [], ◌∷◌, ◌++◌, String, str_eq,
  ltb, if◌then◌else◌,
}
use customer_service_os_lite.Common.Dates.{Timestamp, date_parse}
use customer_service_os_lite.Policy.Types.{RefundPolicyDecision, PolicyEffect}
use customer_service_os_lite.Journey.Types.{RefundContext, AcceptedDamageEvidence, RefundPreview}
use customer_service_os_lite.Workflow.Types.{
  EvidenceSnapshot, RefundWorkflowRequest, RefundCustomerConfirmation, HumanAction, approve,
  approve_exceptional_refund, reject, resolve_takeover, RefundHumanDecision, RefundWorkflowState,
  Stage, EvidenceOutcome, CaseType, CaseOutcome, Command, Resolution, Route, automatic, approval,
  exceptional, OfferPoint, Point, Config, Patches, Reaction, just, with_preview, finish,
  accepted_of,
}
use customer_service_os_lite.Workflow.Settle.{same_accepted_evidence, execute_authorized_refund}

-- `isRefundPreviewCurrent`: the deadline is exclusive.
pub is_refund_preview_current : Timestamp → ℕ → Bool
is_refund_preview_current valid_until now = elim (date_parse valid_until) [
  | none ↦ false
  | some deadline ↦ ltb now deadline
]

-- What the confirmation handler makes of a signal while nothing is decided.
pub data Heard : Type 0 where
  ignored expired : Heard
  heard : RefundCustomerConfirmation → Heard

pub hear_confirmation : Patches → RefundPreview → ℕ → RefundCustomerConfirmation → Heard
unfolding is_refund_preview_current
hear_confirmation patches preview now received =
    if not (str_eq received.preview_id preview.preview_id)
    then Heard.ignored
    else if patches.expiry_confirmation && not (is_refund_preview_current preview.valid_until now)
    then Heard.expired
    else Heard.heard received

-- Confirmations that came before the handler was set, in order: the first that is not ignored.
pub hear_confirmations : Patches → RefundPreview → ℕ → List RefundCustomerConfirmation → Heard
unfolding hear_confirmation
hear_confirmations patches preview now [] = Heard.ignored
hear_confirmations patches preview now (c ∷ cs) =
    let rest = hear_confirmations patches preview now cs in
    elim (hear_confirmation patches preview now c) [
      | Heard.ignored ↦ rest
      | Heard.expired ↦ Heard.expired
      | Heard.heard k ↦ Heard.heard k
    ]

-- `remainingMilliseconds`, where it is a positive number
pub remaining : Timestamp → ℕ → Option ℕ
remaining valid_until now = elim (date_parse valid_until) [
  | none ↦ none
  | some deadline ↦ if ltb now deadline then some (deadline - now) else none
]

pub is_approval : Route → Bool
is_approval approval = true
is_approval _ = false

-- `openMonetaryCase`: a new case, or the transition of the case that holds the accepted evidence.
pub open_monetary_case :
    Config
    → OfferPoint
    → CaseType
    → List HumanAction
    → RefundPolicyDecision
    → Option RefundPreview
    → Reaction
open_monetary_case c next case_type actions d preview =
    let version : Option ℕ = elim (accepted_of c.evidence) [
      | none ↦ none
      | some a ↦ some a.evidence_version
    ] in
    (
      record c { point = Point.offering next },
      Command.open_case case_type actions d preview version ∷ [],
    )

-- On the approval route an accepted evidence case is closed before the journey ends.
pub withdraw : Config → Route → RefundWorkflowState → Reaction
unfolding is_approval
withdraw c route next =
    if is_approval route
    then elim c.evidence [
      | none ↦ finish c next
      | some e ↦ elim e.accepted [
        | none ↦ finish c next
        | some a ↦ (
          record c { point = Point.offering (OfferPoint.withdrawing next) },
          Command.close_evidence e.case_id EvidenceOutcome.evidence_review_completed ∷ [],
        )
      ]
    ]
    else finish c next

-- The confirmation is `undefined`: `{ ...state, stage: 'PREVIEW_INVALIDATED' }`
pub unconfirmed : Config → Route → Reaction
unfolding withdraw
unconfirmed c route = withdraw c route (record (c.state) { stage = Stage.preview_invalidated })

-- Behind the observation of a confirmation.
pub after_confirmation :
    RefundWorkflowRequest → Config → Route → RefundPolicyDecision → RefundPreview → Bool → Reaction
unfolding withdraw open_monetary_case
after_confirmation request c route d p false = withdraw c route (with_preview Stage.cancelled d p)
after_confirmation request c approval d p true =
    open_monetary_case c (OfferPoint.opening_approval d p) CaseType.refund_approval
      (approve ∷ reject ∷ []) d (some p)
after_confirmation request c _ d p true = execute_authorized_refund request c d p

pub confirmed :
    RefundWorkflowRequest
    → Patches
    → Config
    → Route
    → RefundPolicyDecision
    → RefundPreview
    → RefundCustomerConfirmation
    → Reaction
unfolding after_confirmation
confirmed request patches c route d p k =
    if patches.observation_activity
    then (
      record c { point = Point.offering (OfferPoint.observing route d p k) },
      Command.observe_confirmation ∷ [],
    )
    else after_confirmation request c route d p k.accepted

-- `waitForRefundConfirmation`, up to its await, and on where it does not wait.
pub wait_for_confirmation :
    RefundWorkflowRequest
    → Patches
    → Config
    → ℕ
    → Route
    → RefundPolicyDecision
    → RefundPreview
    → Reaction
unfolding hear_confirmations remaining confirmed unconfirmed
wait_for_confirmation request patches c now route d p =
    let waiting = record c { point = Point.offering (OfferPoint.confirming route d p) } in
    elim (hear_confirmations patches p now c.early_confirmations) [
      | Heard.heard k ↦ confirmed request patches c route d p k
      | Heard.expired ↦ unconfirmed c route
      | Heard.ignored ↦
          if patches.expiry_timer
          then elim (remaining p.valid_until now) [
            | none ↦ unconfirmed c route
            | some ms ↦ (waiting, Command.start_timer ms ∷ [])
          ]
          else (waiting, [])
    ]

-- The state behind `createRefundPreview`, and the wait.
pub offer_preview :
    RefundWorkflowRequest
    → Patches
    → Config
    → ℕ
    → Route
    → RefundPolicyDecision
    → RefundPreview
    → Reaction
unfolding wait_for_confirmation
offer_preview request patches c now route d p =
    wait_for_confirmation request patches
      (record c { state = with_preview Stage.awaiting_customer_confirmation d p }) now route d p

-- A confirmation that is signalled while the workflow waits for it.
unfoldable pub signal_confirmation :
    RefundWorkflowRequest
    → Patches
    → Config
    → ℕ
    → OfferPoint
    → RefundCustomerConfirmation
    → Reaction
unfolding hear_confirmation confirmed unconfirmed
signal_confirmation request patches c now (OfferPoint.confirming route d p) received =
    elim (hear_confirmation patches p now received) [
      | Heard.ignored ↦ (c, [])
      | Heard.expired ↦ unconfirmed c route
      | Heard.heard k ↦ confirmed request patches c route d p k
    ]
signal_confirmation request patches c now _ received =
    (record c { early_confirmations = c.early_confirmations ++ received ∷ [] }, [])

-- The actions that the two handlers of human decisions take.
pub is_approval_action : HumanAction → Bool
is_approval_action approve = true
is_approval_action reject = true
is_approval_action _ = false

pub is_takeover_action : HumanAction → Bool
is_takeover_action approve = false
is_takeover_action _ = true

-- The first decision that a handler takes, among those that came before it was set.
pub first_decision : (HumanAction → Bool) → List RefundHumanDecision → Option RefundHumanDecision
first_decision takes [] = none
first_decision takes (h ∷ hs) = if takes h.decision then some h else first_decision takes hs

-- Behind the approval's `condition`.
pub after_approval :
    Config → RefundPolicyDecision → RefundPreview → String → RefundHumanDecision → Reaction
after_approval c d p case_id h = (
  record c { point = Point.offering (OfferPoint.closing_approval d p h); human_decision = some h },
  Command.close_case case_id
        (elim h.decision [ reject ↦ CaseOutcome.rejected | _ ↦ CaseOutcome.approved ]) h
      ∷ [],
)

pub takeover_outcome : HumanAction → CaseOutcome
takeover_outcome approve_exceptional_refund = CaseOutcome.approved
takeover_outcome reject = CaseOutcome.rejected
takeover_outcome _ = CaseOutcome.takeover_resolved

-- Behind the takeover's `condition`.
pub after_takeover : Config → RefundPolicyDecision → String → RefundHumanDecision → Reaction
unfolding takeover_outcome
after_takeover c d case_id h = (
  record c {
    point = Point.offering (OfferPoint.closing_takeover d case_id h);
    human_decision = some h;
  },
  Command.close_case case_id (takeover_outcome h.decision) h ∷ [],
)

-- A human decision that is signalled while its handler is set.
unfoldable pub signal_decision : Config → OfferPoint → RefundHumanDecision → Reaction
unfolding is_approval_action is_takeover_action after_approval after_takeover
signal_decision c (OfferPoint.awaiting_approval d p case_id) h =
    if is_approval_action h.decision then after_approval c d p case_id h else (c, [])
signal_decision c (OfferPoint.awaiting_takeover d case_id) h =
    if is_takeover_action h.decision then after_takeover c d case_id h else (c, [])
signal_decision c _ h = (record c { early_decisions = c.early_decisions ++ h ∷ [] }, [])

pub approval_opened : Config → RefundPolicyDecision → RefundPreview → String → Reaction
unfolding first_decision is_approval_action after_approval
approval_opened c d p case_id =
    let waiting = record c {
      point = Point.offering (OfferPoint.awaiting_approval d p case_id);
      state = with_preview Stage.awaiting_approval d p;
    } in
    elim (first_decision is_approval_action c.early_decisions) [
      | none ↦ (waiting, [])
      | some h ↦ after_approval waiting d p case_id h
    ]

pub takeover_opened : Config → RefundPolicyDecision → String → Reaction
unfolding first_decision is_takeover_action after_takeover
takeover_opened c d case_id =
    let waiting = record c {
      point = Point.offering (OfferPoint.awaiting_takeover d case_id);
      state = just Stage.human_takeover_required d;
    } in
    elim (first_decision is_takeover_action c.early_decisions) [
      | none ↦ (waiting, [])
      | some h ↦ after_takeover waiting d case_id h
    ]

-- Behind `closeHumanCase` of an approval.
pub approval_closed :
    RefundWorkflowRequest → Config → RefundPolicyDecision → RefundPreview → HumanAction → Reaction
approval_closed request c d p reject = finish c (with_preview Stage.rejected d p)
approval_closed request c d p _ = execute_authorized_refund request c d p

-- Behind `closeHumanCase` of a takeover.
pub takeover_closed : Config → RefundPolicyDecision → String → HumanAction → Reaction
takeover_closed c d case_id approve_exceptional_refund = (
  record c { point = Point.offering (OfferPoint.refreshing_exception d case_id) },
  Command.refresh_context ∷ [],
)
takeover_closed c d case_id reject = finish c (just Stage.rejected d)
takeover_closed c d case_id _ = finish c (just Stage.takeover_resolved d)

abbrev request_preview : Config → Route → RefundContext → RefundPolicyDecision → Reaction
request_preview c route context d =
    let case_id : Option String = elim route [ exceptional id ↦ some id | _ ↦ none ] in
    (
      record c { point = Point.offering (OfferPoint.previewing route d) },
      Command.make_preview context d case_id ∷ [],
    )

pub exception_refreshed : Config → RefundPolicyDecision → String → RefundContext → Reaction
exception_refreshed c d case_id context = elim (accepted_of c.evidence) [
  | none ↦ request_preview c (exceptional case_id) context d
  | some a ↦ (
    record c { point = Point.offering (OfferPoint.rereading_exception d case_id context a) },
    Command.read_evidence ∷ [],
  )
]

pub exception_reread :
    Config
    → RefundPolicyDecision
    → String
    → RefundContext
    → AcceptedDamageEvidence
    → Option AcceptedDamageEvidence
    → Reaction
exception_reread c d case_id context a current =
    if same_accepted_evidence (some a) current
    then (
      record c { point = Point.offering (OfferPoint.redeciding_exception case_id context) },
      Command.evaluate_policy context current ∷ [],
    )
    else finish c (just Stage.preview_invalidated d)

pub exception_redecided :
    Config → String → RefundContext → RefundPolicyDecision → PolicyEffect → Reaction
exception_redecided c case_id context d PolicyEffect.deny = finish c (just Stage.denied d)
exception_redecided c case_id context d PolicyEffect.needs_facts =
    finish c (just Stage.needs_facts d)
exception_redecided c case_id context d _ = request_preview c (exceptional case_id) context d

-- `switch (decision.effect)`
unfoldable pub switch_effect :
    Config → RefundContext → RefundPolicyDecision → PolicyEffect → Reaction
unfolding open_monetary_case
switch_effect c context d PolicyEffect.needs_facts = finish c (just Stage.needs_facts d)
switch_effect c context d PolicyEffect.deny = finish c (just Stage.denied d)
switch_effect c context d PolicyEffect.approval_required = request_preview c approval context d
switch_effect c context d PolicyEffect.takeover_required =
    open_monetary_case c (OfferPoint.opening_takeover d) CaseType.refund_takeover
      (approve_exceptional_refund ∷ resolve_takeover ∷ reject ∷ []) d none
switch_effect c context d PolicyEffect.allow = request_preview c automatic context d

-- One resolved await of this phase.
unfoldable pub resume_offering :
    RefundWorkflowRequest → Patches → Config → ℕ → OfferPoint → Resolution → Reaction
unfolding offer_preview unconfirmed after_confirmation approval_opened takeover_opened
    approval_closed takeover_closed exception_refreshed exception_reread exception_redecided
resume_offering request patches c now (OfferPoint.previewing route d) (Resolution.preview_made p) =
    offer_preview request patches c now route d p
resume_offering request patches c now (OfferPoint.confirming route d p) Resolution.timer_fired =
    unconfirmed c route
resume_offering request patches c now (OfferPoint.observing route d p k)
      Resolution.confirmation_observed =
    after_confirmation request c route d p k.accepted
resume_offering request patches c now (OfferPoint.withdrawing next) Resolution.evidence_closed =
    finish c next
resume_offering request patches c now (OfferPoint.opening_approval d p)
      (Resolution.case_opened id) =
    approval_opened c d p id
resume_offering request patches c now (OfferPoint.closing_approval d p h) Resolution.case_closed =
    approval_closed request c d p h.decision
resume_offering request patches c now (OfferPoint.opening_takeover d) (Resolution.case_opened id) =
    takeover_opened c d id
resume_offering request patches c now (OfferPoint.closing_takeover d case_id h)
      Resolution.case_closed =
    takeover_closed c d case_id h.decision
resume_offering request patches c now (OfferPoint.refreshing_exception d case_id)
      (Resolution.context_read context) =
    exception_refreshed c d case_id context
resume_offering request patches c now (OfferPoint.rereading_exception d case_id context a)
      (Resolution.evidence_read current) =
    exception_reread c d case_id context a current.accepted
resume_offering request patches c now (OfferPoint.redeciding_exception case_id context)
      (Resolution.policy_decided d) =
    exception_redecided c case_id context d d.effect
resume_offering request patches c now at Resolution.activity_failed =
    (record c { point = Point.thrown }, [])
resume_offering request patches c now at _ = (c, [])
