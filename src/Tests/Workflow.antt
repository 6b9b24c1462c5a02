-- ===== src/Tests/Workflow.antt =====
-- Tests of apps/services/workflow-workers/src/refund-workflow.ts: one run from its start to a refund
-- that succeeds at once.
use customer_service_os_lite.Common.{ℕ, ◌≤◌, ◌≡◌, refl, none, some, List, [], ◌∷◌, true, false}
use customer_service_os_lite.Common.Lists.{All}
use customer_service_os_lite.Common.Dates.{at}
use customer_service_os_lite.Workflow.Types.{
  RefundWorkflowRequest, RefundCustomerConfirmation, Resolution, Signal, Event, Patches,
  ExecuteStatus, Stage,
}
use customer_service_os_lite.Workflow.History.{CommandSound}
use customer_service_os_lite.Workflow.Budget.{submissions}
use customer_service_os_lite.Workflow.Settle.{resume_settling, execute_authorized_refund}
use customer_service_os_lite.Workflow.Offer.{resume_offering, signal_confirmation, switch_effect}
use customer_service_os_lite.Workflow.Intake.{resume_intake, start}
use customer_service_os_lite.Workflow.Machine.{step, run}
use customer_service_os_lite.Workflow.Machine.Budget.{run_submits_once}
use customer_service_os_lite.Workflow.Machine.Consent.{run_justified, past, carried_over}
use customer_service_os_lite.Tests.Fixtures.{proposal, context, decision, preview}

abbrev request : RefundWorkflowRequest
request = record {
  proposal = proposal;
  policy_version = "refund-policy-v1";
  evidence_recovery = none;
  recovery = none;
}

abbrev patches : Patches
patches = record { expiry_timer = true; expiry_confirmation = true; observation_activity = false }

abbrev acceptance : RefundCustomerConfirmation
acceptance = record { preview_id = "v-1"; accepted = true; confirmed_at = at 5000 }

abbrev events : List (ℕ × Event)
events =
    (1000, Event.resolved (Resolution.context_read context))
    ∷ (2000, Event.resolved (Resolution.policy_decided (decision [])))
    ∷ (3000, Event.resolved (Resolution.preview_made preview))
    ∷ (5000, Event.signalled (Signal.confirm_refund acceptance))
    ∷ (6000, Event.resolved (Resolution.context_read context))
    ∷ (
      7000,
      Event.resolved (
          Resolution.refund_executed
            (record { status = ExecuteStatus.succeeded; provider_refund_id = some "r-9" })),
    )
    ∷ []

succeeds : (run request patches events).0.state.stage ≡ Stage.refund_succeeded
unfolding run start step resume_intake resume_offering signal_confirmation resume_settling
    switch_effect execute_authorized_refund
succeeds = refl

submits : submissions (run request patches events).1 ≡ 1
unfolding run start step resume_intake resume_offering signal_confirmation resume_settling
    switch_effect execute_authorized_refund
submits = refl

run_submits_once_example : submissions (run request patches events).1 ≤ 1
run_submits_once_example = run_submits_once request patches events

run_justified_example :
    All (CommandSound patches (past (carried_over none) events)) (run request patches events).1
run_justified_example = run_justified request patches events
