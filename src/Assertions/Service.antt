-- ===== src/Assertions/Service.antt =====
-- The service assertions that apps/services/edge-api/src/context-assertion.ts signs, and their verifier
-- in apps/services/conversation-runtime/src/service-assertion.ts.
pub mod Laws
use customer_service_os_lite.Common.{
  ℕ, Bool, true, false, not, ◌&&◌, ◌||◌, Option, none, some, List, [], ◌∷◌, String, str_eq, leb,
  if◌then◌else◌, Result, ok, err, ◌>>=◌, ◌>>◌, throw_if,
}
use customer_service_os_lite.Conversations.Types.{AccessContext}
use customer_service_os_lite.Assertions.Json.{
  Json, Fields, AssertionError, get, parse_object, parse_opaque_id, parse_name, parse_one_of,
  parse_number, Parsed,
}
use customer_service_os_lite.Assertions.Jose.{
  Jose, SignerOptions, VerifierOptions, registered, seconds, check_secret, check_signer, open_token,
  is_untimely,
}
use customer_service_os_lite.Assertions.Context.{Identity, ContextInput, is_valid_context}

pub record ServiceInput : Type 0 where
  pub identity : Identity
  pub request_id : String
  pub trace_id : String

-- The input with the channel that the signer adds before it checks it.
abbrev pub with_channel : ServiceInput → ContextInput
with_channel i = record {
  identity = i.identity;
  request_id = i.request_id;
  trace_id = i.trace_id;
  channel_id = "internal";
}

unfoldable pub service_payload : SignerOptions → ℕ → ServiceInput → ℕ → Json
service_payload options routing_epoch i issued_at = Json.object (
    Fields.field "tenantId" (Json.text i.identity.tenant_id) (
      Fields.field "environmentId" (Json.text i.identity.environment_id) (
        Fields.field "subjectCustomerId" (Json.text i.identity.customer_id) (
          Fields.field "requestId" (Json.text i.request_id) (
            Fields.field "traceId" (Json.text i.trace_id) (
              Fields.field "routingEpoch" (Json.number routing_epoch) (
                Fields.field "purpose" (Json.text "conversation_assistant_message")
                  (registered options issued_at))))))))

pub record ServiceClaims : Type 0 where
  pub access : AccessContext
  pub iat : ℕ
  pub exp : ℕ

abbrev claim_names : List String
claim_names =
    "tenantId" ∷ "environmentId" ∷ "subjectCustomerId" ∷ "requestId" ∷ "traceId" ∷ "routingEpoch"
    ∷ "purpose" ∷ "iss" ∷ "aud" ∷ "iat" ∷ "exp" ∷ []

unfoldable pub parse_service_claims : Json → Parsed ServiceClaims
parse_service_claims payload = parse_object claim_names (some payload) >>= λ claims.
    parse_opaque_id (get "tenantId" claims) >>= λ tenant_id.
    parse_opaque_id (get "environmentId" claims) >>= λ environment_id.
    parse_opaque_id (get "subjectCustomerId" claims) >>= λ customer_id.
    parse_opaque_id (get "requestId" claims) >>= λ request_id.
    parse_opaque_id (get "traceId" claims) >>= λ trace_id.
    parse_number 1 (get "routingEpoch" claims) >>= λ routing_epoch.
    parse_one_of ("conversation_assistant_message" ∷ []) (get "purpose" claims) >>= λ purpose.
    parse_name (get "iss" claims) >>= λ issuer. parse_name (get "aud" claims) >>= λ audience.
    parse_number 0 (get "iat" claims) >>= λ iat. parse_number 1 (get "exp" claims) >>= λ exp.
    ok (record {
      access = record {
        tenant_id = tenant_id;
        environment_id = environment_id;
        subject_customer_id = customer_id;
        routing_epoch = routing_epoch;
        request_id = request_id;
        trace_id = trace_id;
      };
      iat = iat;
      exp = exp;
    })

unfoldable pub is_wrong_service : VerifierOptions → ℕ → ServiceClaims → Bool
is_wrong_service options now_seconds c =
    not (str_eq c.access.tenant_id options.expected_tenant_id)
    || (not (str_eq c.access.environment_id options.expected_environment_id)
        || is_untimely c.iat c.exp now_seconds)

module _ (jose : Jose) where
  -- The function that `createHmacServiceAssertionSigner` returns, at an instant.
  unfoldable pub sign_service : SignerOptions → ℕ → ServiceInput → ℕ → Result AssertionError String
  sign_service options routing_epoch i now =
      throw_if (not (is_valid_context (with_channel i))) AssertionError.invalid_input
      >> ok (
          jose.sign options.secret "cso-service+jwt"
            (service_payload options routing_epoch i (seconds now)))

  unfoldable pub create_service_signer :
      SignerOptions → ℕ → Result AssertionError (ServiceInput → ℕ → Result AssertionError String)
  create_service_signer options routing_epoch =
      check_signer jose options
      >> throw_if (not (leb 1 routing_epoch)) AssertionError.invalid_input
      >> ok (sign_service options routing_epoch)

  -- The function that `createHmacServiceAssertionVerifier` returns, at an instant.
  unfoldable pub verify_service :
      VerifierOptions → Option String → ℕ → Result AssertionError AccessContext
  verify_service options assertion now =
      open_token jose options "cso-service+jwt" assertion now >>= λ payload.
      parse_service_claims payload >>= λ claims.
      throw_if (is_wrong_service options (seconds now) claims) AssertionError.unauthorized
      >> ok claims.access

  unfoldable pub create_service_verifier :
      VerifierOptions
      → Result AssertionError (Option String → ℕ → Result AssertionError AccessContext)
  create_service_verifier options = check_secret jose options.secret >> ok (verify_service options)
