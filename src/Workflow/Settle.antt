-- ===== src/Workflow/Settle.antt =====
-- `executeAuthorizedRefund`, `awaitProviderRefundOutcome` and `reconcilePendingRefund` of
-- apps/services/workflow-workers/src/refund-workflow.ts.
pub mod Budget
pub mod Consent
use customer_service_os_lite.Common.{
  ℕ, ◌+◌, ◌*◌, Bool, true, false, ◌&&◌, ◌||◌, Option, none, some, List, [], ◌∷◌, ◌++◌, String,
  str_eq, leb, ◌==◌, if◌then◌else◌,
}
use customer_service_os_lite.Common.Int.{leb_ℤ}
use customer_service_os_lite.Policy.Types.{RefundPolicyDecision}
use customer_service_os_lite.Journey.Types.{RefundContext, AcceptedDamageEvidence, RefundPreview}
use customer_service_os_lite.Workflow.Types.{
  EvidenceSnapshot, Recovery, RefundWorkflowRequest, RefundProviderOutcome, ProviderOutcome, Stage,
  ExecuteRefundResult, ExecuteStatus, ReconcileRefundResult, ReconcileStatus, Command, Resolution,
  SettlePoint, Point, Config, Reaction, with_preview, with_provider, finish, accepted_of,
}

-- `RECONCILIATION_INTERVAL`, in milliseconds
abbrev pub reconciliation_interval : ℕ
reconciliation_interval = 5 * 60000

abbrev pub max_reconciliation_attempts_per_run : ℕ
max_reconciliation_attempts_per_run = 288

pub same_accepted_evidence : Option AcceptedDamageEvidence → Option AcceptedDamageEvidence → Bool
same_accepted_evidence (some expected) (some current) =
    expected.evidence_version == current.evidence_version
    && (str_eq expected.assessment_id current.assessment_id
        && str_eq expected.manifest_hash current.manifest_hash)
same_accepted_evidence _ _ = false

pub amount_still_available : RefundContext → RefundPreview → Bool
amount_still_available refreshed preview =
    refreshed.facts.transaction_refundable
    && (refreshed.facts.item_selection_valid
        && (str_eq refreshed.facts.refundable_amount.currency preview.requested_amount.currency
            && leb_ℤ preview.requested_amount.amount_minor
                refreshed.facts.refundable_amount.amount_minor))

pub refresh_before_execution : Config → RefundPolicyDecision → RefundPreview → Reaction
refresh_before_execution c d p = (
  record c { point = Point.settling (SettlePoint.rechecking_context d p) },
  Command.refresh_context ∷ [],
)

-- `executeAuthorizedRefund`, up to its first await
unfoldable pub execute_authorized_refund :
    RefundWorkflowRequest → Config → RefundPolicyDecision → RefundPreview → Reaction
unfolding refresh_before_execution
execute_authorized_refund request c d p =
    if str_eq request.policy_version "refund-policy-v2"
      && str_eq request.proposal.intent.reason_code "DAMAGED"
    then (
      record c { point = Point.settling (SettlePoint.checking_evidence d p) },
      Command.read_evidence ∷ [],
    )
    else refresh_before_execution c d p

-- The handler of the provider's outcome: the first one of the known refund is kept.
pub hear_outcome :
    Option String
    → Option RefundProviderOutcome
    → RefundProviderOutcome
    → Option RefundProviderOutcome
hear_outcome provider (some kept) received = some kept
hear_outcome none none received = none
hear_outcome (some provider) none received =
    if str_eq received.provider_refund_id provider then some received else none

-- Signals that came before the handler was set are handed to it in order.
pub hear_outcomes :
    Option String
    → Option RefundProviderOutcome
    → List RefundProviderOutcome
    → Option RefundProviderOutcome
unfolding hear_outcome
hear_outcomes provider kept [] = kept
hear_outcomes provider kept (o ∷ os) = hear_outcomes provider (hear_outcome provider kept o) os

abbrev reconcile_at : Config → SettlePoint → RefundPreview → Reaction
reconcile_at c at p = (record c { point = Point.settling at }, Command.reconcile_refund p ∷ [])

-- `reconcilePendingRefund`, up to its await
unfoldable pub reconcile_pending_refund :
    Config → RefundPolicyDecision → RefundPreview → ℕ → Reaction
reconcile_pending_refund c d p attempts =
    reconcile_at c (SettlePoint.reconciling_pending d p attempts) p

-- `awaitProviderRefundOutcome`, up to its first await
pub await_provider_refund_outcome :
    Config → RefundPolicyDecision → RefundPreview → Option String → Reaction
unfolding hear_outcomes
await_provider_refund_outcome c d p provider =
    reconcile_at
      (record c {
        provider_outcome = hear_outcomes provider none c.early_outcomes;
        early_outcomes = [];
      })
      (SettlePoint.reconciling_outcome d p provider) p

pub after_execution :
    Config → RefundPolicyDecision → RefundPreview → ExecuteStatus → Option String → Reaction
unfolding reconcile_pending_refund await_provider_refund_outcome
after_execution c d p ExecuteStatus.succeeded provider =
    finish c (with_provider Stage.refund_succeeded d p provider)
after_execution c d p ExecuteStatus.submitted provider =
    await_provider_refund_outcome
      (record c { state = with_provider Stage.refund_processing d p provider }) d p provider
after_execution c d p ExecuteStatus.pending_reconciliation provider =
    reconcile_pending_refund (record c { state = with_preview Stage.pending_reconciliation d p }) d
      p 0
after_execution c d p ExecuteStatus.failed provider =
    finish c (with_preview Stage.refund_failed d p)

-- `a ?? b`
abbrev or_else : Option String → Option String → Option String
or_else (some a) b = some a
or_else none b = b

pub is_completed : Option RefundProviderOutcome → Bool
is_completed none = false
is_completed (some o) = elim o.outcome [ ProviderOutcome.completed ↦ true | _ ↦ false ]

pub is_failed : Option RefundProviderOutcome → Bool
is_failed none = false
is_failed (some o) = elim o.outcome [ ProviderOutcome.failed ↦ true | _ ↦ false ]

pub reconciled_ok : ReconcileStatus → Bool
reconciled_ok ReconcileStatus.succeeded = true
reconciled_ok _ = false

pub reconciled_failed : ReconcileStatus → Bool
reconciled_failed ReconcileStatus.failed = true
reconciled_failed _ = false

-- The body of the loop behind its reconciliation.
pub after_outcome_reconciliation :
    Config → RefundPolicyDecision → RefundPreview → Option String → ReconcileStatus → Reaction
unfolding is_completed is_failed reconciled_ok reconciled_failed
after_outcome_reconciliation c d p provider status =
    if reconciled_ok status || is_completed c.provider_outcome
    then finish c (with_provider Stage.refund_succeeded d p provider)
    else if reconciled_failed status || is_failed c.provider_outcome
    then finish c (with_provider Stage.refund_failed d p provider)
    else (
      record c {
        point = Point.settling (SettlePoint.awaiting_outcome d p provider);
        state = with_provider Stage.refund_processing d p provider;
      },
      Command.start_timer reconciliation_interval ∷ [],
    )

pub after_pending_reconciliation :
    Config → RefundPolicyDecision → RefundPreview → ℕ → ReconcileStatus → Option String → Reaction
after_pending_reconciliation c d p attempts ReconcileStatus.succeeded provider =
    finish c (with_provider Stage.refund_succeeded d p provider)
after_pending_reconciliation c d p attempts ReconcileStatus.failed provider =
    finish c (with_provider Stage.refund_failed d p provider)
after_pending_reconciliation c d p attempts _ provider = (
  record c { point = Point.settling (SettlePoint.sleeping_pending d p attempts) },
  Command.start_timer reconciliation_interval ∷ [],
)

-- The end of `reconcilePendingRefund`, behind its sleep.
pub after_pending_sleep :
    RefundWorkflowRequest → Config → RefundPolicyDecision → RefundPreview → ℕ → Reaction
unfolding reconcile_pending_refund
after_pending_sleep request c d p attempts =
    if leb max_reconciliation_attempts_per_run (attempts + 1)
    then (
      record c {
        point = Point.continued (record request {
          recovery = some (record { decision = d; preview = p; attempts_in_run = 0 });
        });
      },
      [],
    )
    else reconcile_pending_refund c d p (attempts + 1)

-- One resolved await of this phase. A resolution that the point does not await cannot occur, and
-- changes nothing.
unfoldable pub resume_settling :
    RefundWorkflowRequest → Config → SettlePoint → Resolution → Reaction
unfolding same_accepted_evidence amount_still_available refresh_before_execution after_execution
    after_outcome_reconciliation after_pending_reconciliation after_pending_sleep
resume_settling request c (SettlePoint.checking_evidence d p) (Resolution.evidence_read current) =
    if same_accepted_evidence (accepted_of c.evidence) current.accepted
    then refresh_before_execution c d p
    else finish c (with_preview Stage.preview_invalidated d p)
resume_settling request c (SettlePoint.rechecking_context d p) (Resolution.context_read refreshed) =
    if amount_still_available refreshed p
    then (
      record c { point = Point.settling (SettlePoint.executing d p) },
      Command.execute_refund p ∷ [],
    )
    else finish c (with_preview Stage.preview_invalidated d p)
resume_settling request c (SettlePoint.executing d p) (Resolution.refund_executed r) =
    after_execution c d p r.status r.provider_refund_id
resume_settling request c (SettlePoint.reconciling_outcome d p provider)
      (Resolution.refund_reconciled r) =
    after_outcome_reconciliation c d p (or_else provider r.provider_refund_id) r.status
resume_settling request c (SettlePoint.awaiting_outcome d p provider) Resolution.timer_fired =
    reconcile_at c (SettlePoint.reconciling_outcome d p provider) p
resume_settling request c (SettlePoint.reconciling_pending d p attempts)
      (Resolution.refund_reconciled r) =
    after_pending_reconciliation c d p attempts r.status r.provider_refund_id
resume_settling request c (SettlePoint.sleeping_pending d p attempts) Resolution.timer_fired =
    after_pending_sleep request c d p attempts
resume_settling request c at Resolution.activity_failed = (record c { point = Point.thrown }, [])
resume_settling request c at _ = (c, [])

-- A provider outcome that is signalled while its handler is set.
unfoldable pub signal_outcome : Config → SettlePoint → RefundProviderOutcome → Reaction
unfolding hear_outcome
signal_outcome c (SettlePoint.reconciling_outcome d p provider) o =
    (record c { provider_outcome = hear_outcome provider c.provider_outcome o }, [])
signal_outcome c (SettlePoint.awaiting_outcome d p provider) o =
    elim (hear_outcome provider c.provider_outcome o) [
      | none ↦ (c, [])
      | some kept ↦
          reconcile_at (record c { provider_outcome = some kept })
            (SettlePoint.reconciling_outcome d p provider) p
    ]
signal_outcome c _ o = (record c { early_outcomes = c.early_outcomes ++ o ∷ [] }, [])
