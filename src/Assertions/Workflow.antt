-- ===== src/Assertions/Workflow.antt =====
-- The signer of apps/services/workflow-workers/src/workflow-access-assertion.ts and the verifier of
-- apps/services/integration-gateway/src/workflow-access.ts.

pub mod Laws
use customer_service_os_lite.Common.{
  ℕ, Bool, true, false, not, ◌&&◌, ◌||◌, Option, none, some, List, [], ◌∷◌, String, str_eq,
  is_opaque_id, if◌then◌else◌, Result, ok, err, ◌>>=◌, ◌>>◌, throw_if,
}
use customer_service_os_lite.Assertions.Json.{
  Json, Fields, AssertionError, get, parse_object, parse_opaque_id, parse_name, parse_one_of,
  parse_number, Parsed,
}
use customer_service_os_lite.Assertions.Jose.{
  Jose, SignerOptions, VerifierOptions, registered, seconds, check_secret, check_signer, open_token,
  is_untimely,
}

pub record JourneyAccess : Type 0 where
  pub tenant_id : String
  pub environment_id : String
  pub subject_customer_id : String
  pub request_id : String
  pub trace_id : String

pub data Purpose : Type 0 where
  refund_fact_refresh refund_execute refund_reconcile human_case_open human_case_close : Purpose
  refund_evidence_open refund_evidence_read human_case_transition : Purpose

unfoldable pub purpose_text : Purpose → String
purpose_text Purpose.refund_fact_refresh = "refund_fact_refresh"
purpose_text Purpose.refund_execute = "refund_execute"
purpose_text Purpose.refund_reconcile = "refund_reconcile"
purpose_text Purpose.human_case_open = "human_case_open"
purpose_text Purpose.human_case_close = "human_case_close"
purpose_text Purpose.refund_evidence_open = "refund_evidence_open"
purpose_text Purpose.refund_evidence_read = "refund_evidence_read"
purpose_text Purpose.human_case_transition = "human_case_transition"

pub record SignInput : Type 0 where
  pub workflow_id : String
  pub access : JourneyAccess
  pub purpose : Purpose

-- The two schemas of the signer's input.
unfoldable pub is_valid_input : SignInput → Bool
is_valid_input i =
    is_opaque_id 160 i.access.tenant_id
    && (is_opaque_id 160 i.access.environment_id
        && (is_opaque_id 160 i.access.subject_customer_id
            && (is_opaque_id 160 i.access.request_id
                && (is_opaque_id 160 i.access.trace_id && is_opaque_id 160 i.workflow_id))))

unfoldable pub access_payload : SignerOptions → SignInput → ℕ → Json
access_payload options i issued_at = Json.object (
    Fields.field "accessVersion" (Json.text "1") (
      Fields.field "workflow"
        (Json.object (Fields.field "workflowId" (Json.text i.workflow_id) Fields.end))
        (Fields.field "tenant"
          (Json.object (
            Fields.field "tenantId" (Json.text i.access.tenant_id)
              (Fields.field "environmentId" (Json.text i.access.environment_id) Fields.end)))
          (Fields.field "subject"
            (Json.object
              (Fields.field "customerId" (Json.text i.access.subject_customer_id) Fields.end))
            (Fields.field "purpose" (Json.text (purpose_text i.purpose)) (
              Fields.field "request"
                (Json.object (
                  Fields.field "requestId" (Json.text i.access.request_id)
                    (Fields.field "traceId" (Json.text i.access.trace_id) Fields.end)))
                (registered options issued_at)))))))

-- What the gateway's routes are given.
pub record OrderAccess : Type 0 where
  pub context_id : String
  pub tenant_id : String
  pub environment_id : String
  pub subject_customer_id : String
  pub routing_epoch : ℕ
  pub request_id : String
  pub trace_id : String

pub record AccessClaims : Type 0 where
  pub access : OrderAccess
  pub purpose : String
  pub iat : ℕ
  pub exp : ℕ

abbrev claim_names : List String
claim_names =
    "accessVersion" ∷ "workflow" ∷ "tenant" ∷ "subject" ∷ "purpose" ∷ "request" ∷ "iss" ∷ "aud"
    ∷ "iat" ∷ "exp" ∷ []

unfoldable pub parse_access_claims : Json → Parsed AccessClaims
parse_access_claims payload = parse_object claim_names (some payload) >>= λ claims.
    parse_one_of ("1" ∷ []) (get "accessVersion" claims) >>= λ version.
    parse_object ("workflowId" ∷ []) (get "workflow" claims) >>= λ workflow.
    parse_opaque_id (get "workflowId" workflow) >>= λ workflow_id.
    parse_object ("tenantId" ∷ "environmentId" ∷ []) (get "tenant" claims) >>= λ tenant.
    parse_opaque_id (get "tenantId" tenant) >>= λ tenant_id.
    parse_opaque_id (get "environmentId" tenant) >>= λ environment_id.
    parse_object ("customerId" ∷ []) (get "subject" claims) >>= λ subject.
    parse_opaque_id (get "customerId" subject) >>= λ customer_id.
    parse_one_of ("refund_fact_refresh" ∷ "refund_execute" ∷ "refund_reconcile" ∷ [])
      (get "purpose" claims)
    >>= λ purpose. parse_object ("requestId" ∷ "traceId" ∷ []) (get "request" claims) >>= λ request.
        parse_opaque_id (get "requestId" request) >>= λ request_id.
        parse_opaque_id (get "traceId" request) >>= λ trace_id.
        parse_name (get "iss" claims) >>= λ issuer. parse_name (get "aud" claims) >>= λ audience.
        parse_number 0 (get "iat" claims) >>= λ iat. parse_number 1 (get "exp" claims) >>= λ exp.
        ok (record {
          access = record {
            context_id = workflow_id;
            tenant_id = tenant_id;
            environment_id = environment_id;
            subject_customer_id = customer_id;
            routing_epoch = 1;
            request_id = request_id;
            trace_id = trace_id;
          };
          purpose = purpose;
          iat = iat;
          exp = exp;
        })

unfoldable pub is_wrong_access : VerifierOptions → Purpose → ℕ → AccessClaims → Bool
is_wrong_access options expected_purpose now_seconds c =
    not (str_eq c.access.tenant_id options.expected_tenant_id)
    || (not (str_eq c.access.environment_id options.expected_environment_id)
        || (is_untimely c.iat c.exp now_seconds
            || not (str_eq c.purpose (purpose_text expected_purpose))))

module _ (jose : Jose) where
  -- The function that `createHmacWorkflowAccessAssertionSigner` returns, at an instant.
  unfoldable pub sign_access : SignerOptions → SignInput → ℕ → Result AssertionError String
  sign_access options i now =
      throw_if (not (is_valid_input i)) AssertionError.invalid_input
      >> ok (jose.sign options.secret "cso-workflow+jwt" (access_payload options i (seconds now)))

  unfoldable pub create_access_signer :
      SignerOptions → Result AssertionError (SignInput → ℕ → Result AssertionError String)
  create_access_signer options = check_signer jose options >> ok (sign_access options)

  -- The function that `createHmacWorkflowAccessAssertionVerifier` returns, at an instant.
  unfoldable pub verify_access :
      VerifierOptions → Purpose → Option String → ℕ → Result AssertionError OrderAccess
  verify_access options expected_purpose assertion now =
      open_token jose options "cso-workflow+jwt" assertion now >>= λ payload.
      parse_access_claims payload >>= λ claims.
      throw_if (is_wrong_access options expected_purpose (seconds now) claims)
        AssertionError.unauthorized
      >> ok claims.access

  unfoldable pub create_access_verifier :
      VerifierOptions
      → Purpose
      → Result AssertionError (Option String → ℕ → Result AssertionError OrderAccess)
  create_access_verifier options expected_purpose =
      check_secret jose options.secret >> ok (verify_access options expected_purpose)
