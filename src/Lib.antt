-- ===== src/Lib.antt =====
-- Verification of the refund journey of customer-service-OS-lite.
--
-- The parts of the program, and the files that model them:
--
-- * Policy (Policy/): apps/services/workflow-workers/src/refund-policy.ts and refund-risk.ts.
--   `evaluate_refund_policy` is `evaluateRefundPolicy`; it returns the decision or the error that the
--   code throws. `canonicalize_json` and `hash_policy_input` write the canonical text that is hashed;
--   the SHA-256 digest and the text of an instant are fields of `Platform`. A release is an argument.
-- * Journey (Journey/): refund-policy-input.ts, refund-preview.ts, and the two activities of
--   refund-workflow-activities.ts that decide, over the data that they pass on.
-- * Workflow (Workflow/): refund-workflow.ts. A `Config` holds the workflow's variables and the await
--   at which it stands (`Point`); an `Event` is a resolved await (an activity's result or failure, a
--   timer) or a signal, each at the workflow's clock; `step` runs the code from one await to the next
--   and gives the commands that it issues. `Intake` is the code up to the `switch` on the decision,
--   `Offer` the cases of the `switch`, `Settle` the submission and the reconciliation. A signal that
--   comes before its handler is set is kept, in order, and handed to the handler later, as the host
--   does. `continueAsNew` is a point that carries the next request; Temporal's patches are arguments.
--   The commands name the activity that is called and the values that differ from call to call.
-- * Gateway (Gateway/): apps/services/integration-gateway/src/refund-context.ts,
--   get-refund-context.ts and the types of commerce.ts. The order is what the commerce provider gives;
--   `toUpperCase` and the digest of the facts are fields of `TextPlatform`.
-- * Cases (Cases/): apps/services/human-operations/src/human-case.ts and the in-memory repository of
--   human-case-repository.ts. A `Store` holds the repository's maps, `Supply` the ids and the clock
--   that its constructor is given. An operation gives its answer with the store behind it, or the
--   error that it throws; every throw comes before the first write. `Cases.Life` follows a case
--   through any sequence of operations, and `Cases.Queries` are the repository's queries.
-- * Executions (Executions.antt, Executions/): the in-memory repository of
--   apps/services/integration-gateway/src/refund-execution-repository.ts; a `Ledger` holds its two maps.
--   Ages, which the snapshots give in seconds, are kept in milliseconds.
-- * Submission (Submission.antt, Submission/): the handler of refund-execution-routes.ts, behind the
--   parsing and the check of the assertion, over the gateway's context and the ledger. `Progress` is
--   the await at which a request stands, and a function runs it from each await to the next;
--   `Service` interleaves any number of requests with the other calls of the in-memory repository,
--   whose operations (`Executions.Runs`) end before anything else runs.
-- * View (View.antt, View/): apps/services/edge-api/src/refund-journey-view.ts, what a customer is
--   shown for a stage of the workflow, which comes as a text.
-- * Conversations (Conversations/): apps/services/conversation-runtime/src/conversation-service.ts,
--   message-protection.ts and postgres-conversation-repository.ts. `Database` holds the tables as
--   lists of rows. A transaction gets the database and gives it back with its answer, or an error,
--   and then nothing is written; `Append.append_message` is the transaction of `acceptMessage` and
--   `appendAssistantMessage`, `Repository` has the others, `Service` is the service in front of them. The transactions on a
--   conversation run one after the other, as the lock on its row makes them, and `Run` runs a
--   sequence of them. Node's ciphers, digests and random ids are parameters; the column types and
--   the row policies of the tables are left out.
-- * Assertions (Assertions/): the signers of apps/services/workflow-workers and edge-api, with the
--   verifiers of the gateway and the conversation runtime. Claims are JSON values (`Json`); signing
--   and the check of a signature belong to the package jose, a parameter (`Jose`).
-- * Edge (Edge/): apps/services/edge-api/src/order-reference.ts. The pattern of a reference is
--   matched on the characters of a text.
-- * Common (Common/) holds what the parts share: results that may be errors, maps, sorting, instants,
--   integers, lists and texts. Tests/ runs the parts on concrete inputs.
--
-- The workflow's context is the gateway's, the preview is the activity's, and the human decisions that
-- reach the workflow as signals are the outbox events of the cases.
--
-- Numbers: amounts are exact integers, and the code's tests for safe integers are kept; instants are
-- milliseconds, and a text that `Date.parse` rejects is `malformed`. A list's `sort` is a stable
-- insertion sort, texts are compared by UTF-16 code units, and `localeCompare` is a parameter. No
-- definition but the printing of decimals takes fuel; it gets one more than the number, which has no
-- more digits than that.
--
-- Not modelled: the other HTTP routes, the SQL repositories of cases and executions, the assertions
-- for human operations and for evidence, the local customer sign-in, telemetry, configuration, the
-- web apps and the Python services, which are transport, storage and presentation around these
-- parts; the review packets that the workflow hands to the case service.
pub mod Common
pub mod Policy
pub mod Executions
pub mod Submission
pub mod View
pub mod Gateway
pub mod Assertions
pub mod Cases
pub mod Conversations
pub mod Edge
pub mod Journey
pub mod Workflow
pub mod Tests
