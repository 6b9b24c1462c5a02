-- ===== src/Assertions/Context.antt =====
-- The context assertions that apps/services/edge-api/src/context-assertion.ts signs, and their verifier
-- in apps/services/conversation-runtime/src/trusted-context.ts; the verifier of
-- apps/services/integration-gateway/src/trusted-context.ts is the same up to the name of its result.
pub mod Laws
use customer_service_os_lite.Common.{
  ℕ, ◌+◌, Bool, true, false, not, ◌&&◌, ◌||◌, Option, none, some, List, [], ◌∷◌, String, str_eq,
  codes, is_opaque_id, is_digit, leb, ◌==◌, if◌then◌else◌, Result, ok, err, ◌>>=◌, ◌>>◌, throw_if,
}
use customer_service_os_lite.Common.Lists.{length, every}
use customer_service_os_lite.Common.Sort.{utf16}
use customer_service_os_lite.Conversations.Types.{AccessContext}
use customer_service_os_lite.Assertions.Json.{
  Json, Fields, AssertionError, get, parse_object, parse_opaque_id, parse_name, parse_one_of,
  parse_number, Parsed,
}
use customer_service_os_lite.Assertions.Jose.{
  Jose, SignerOptions, VerifierOptions, registered, seconds, check_secret, check_signer, open_token,
  is_untimely,
}

-- `AuthenticatedCustomer`
pub record Identity : Type 0 where
  pub principal_id : String
  pub tenant_id : String
  pub environment_id : String
  pub customer_id : String

pub record Route : Type 0 where
  pub home_region : String
  pub home_cell : String
  pub routing_epoch : ℕ

pub record RefundPolicyBinding : Type 0 where
  pub policy_version : String
  pub catalog_sha256 : String

pub record ContextInput : Type 0 where
  pub identity : Identity
  pub request_id : String
  pub trace_id : String
  pub channel_id : String

unfoldable pub is_valid_context : ContextInput → Bool
is_valid_context i =
    is_opaque_id 160 i.identity.principal_id
    && (is_opaque_id 160 i.identity.tenant_id
        && (is_opaque_id 160 i.identity.environment_id
            && (is_opaque_id 160 i.identity.customer_id
                && (is_opaque_id 160 i.request_id
                    && (is_opaque_id 160 i.trace_id
                        && (is_opaque_id 160 i.channel_id
                            && str_eq i.identity.principal_id i.identity.customer_id))))))

unfoldable pub is_valid_route : Route → Bool
is_valid_route r =
    is_opaque_id 160 r.home_region && (is_opaque_id 160 r.home_cell && leb 1 r.routing_epoch)

abbrev is_hex : ℕ → Bool
is_hex c = is_digit c || (leb 97 c && leb c 102)

unfoldable pub is_valid_binding : Option RefundPolicyBinding → Bool
is_valid_binding none = true
is_valid_binding (some b) =
    not (str_eq b.policy_version "")
    && (leb (length (utf16 (codes b.policy_version))) 160
        && (every is_hex (codes b.catalog_sha256) && (length (codes b.catalog_sha256) == 64)))

abbrev pub with_binding : Option RefundPolicyBinding → Fields → Fields
with_binding none fields = fields
with_binding (some b) fields =
    Fields.field "refundPolicy"
      (Json.object (
        Fields.field "policyVersion" (Json.text b.policy_version)
          (Fields.field "catalogSha256" (Json.text b.catalog_sha256) Fields.end)))
      fields

unfoldable pub context_payload :
    SignerOptions → Route → Option RefundPolicyBinding → ContextInput → String → ℕ → Json
context_payload options route binding i context_id issued_at = Json.object (
    Fields.field "contextVersion" (Json.text "1") (
      Fields.field "contextId" (Json.text context_id) (
        Fields.field "tenant"
          (Json.object (
            Fields.field "tenantId" (Json.text i.identity.tenant_id)
              (Fields.field "environmentId" (Json.text i.identity.environment_id) Fields.end)))
          (Fields.field "actor"
            (Json.object (
              Fields.field "kind" (Json.text "end_customer")
                (Fields.field "principalId" (Json.text i.identity.principal_id) Fields.end)))
            (Fields.field "subject"
              (Json.object
                (Fields.field "customerId" (Json.text i.identity.customer_id) Fields.end))
              (Fields.field "delegation"
                (Json.object (Fields.field "mode" (Json.text "self") Fields.end))
                (Fields.field "purpose" (Json.text "customer_support") (
                  Fields.field "route"
                    (Json.object (
                      Fields.field "homeRegion" (Json.text route.home_region) (
                        Fields.field "homeCell" (Json.text route.home_cell) (
                          Fields.field "routingEpoch" (Json.number route.routing_epoch)
                            Fields.end))))
                    (Fields.field "request"
                      (Json.object (
                        Fields.field "requestId" (Json.text i.request_id) (
                          Fields.field "traceId" (Json.text i.trace_id)
                            (Fields.field "channelId" (Json.text i.channel_id) Fields.end))))
                      (with_binding binding (registered options issued_at)))))))))))

-- `ConversationAccessContext`
pub record VerifiedContext : Type 0 where
  pub context_id : String
  pub access : AccessContext

pub record ContextClaims : Type 0 where
  pub context : VerifiedContext
  pub principal_id : String
  pub iat : ℕ
  pub exp : ℕ

abbrev claim_names : List String
claim_names =
    "contextVersion" ∷ "contextId" ∷ "tenant" ∷ "actor" ∷ "subject" ∷ "delegation" ∷ "purpose"
    ∷ "route" ∷ "iss" ∷ "aud" ∷ "iat" ∷ "exp" ∷ "request" ∷ []

unfoldable pub parse_context_claims : Json → Parsed ContextClaims
parse_context_claims payload = parse_object claim_names (some payload) >>= λ claims.
    parse_one_of ("1" ∷ []) (get "contextVersion" claims) >>= λ version.
    parse_opaque_id (get "contextId" claims) >>= λ context_id.
    parse_object ("tenantId" ∷ "environmentId" ∷ []) (get "tenant" claims) >>= λ tenant.
    parse_opaque_id (get "tenantId" tenant) >>= λ tenant_id.
    parse_opaque_id (get "environmentId" tenant) >>= λ environment_id.
    parse_object ("kind" ∷ "principalId" ∷ []) (get "actor" claims) >>= λ actor.
    parse_one_of ("end_customer" ∷ []) (get "kind" actor) >>= λ kind.
    parse_opaque_id (get "principalId" actor) >>= λ principal_id.
    parse_object ("customerId" ∷ []) (get "subject" claims) >>= λ subject.
    parse_opaque_id (get "customerId" subject) >>= λ customer_id.
    parse_object ("mode" ∷ []) (get "delegation" claims) >>= λ delegation.
    parse_one_of ("self" ∷ []) (get "mode" delegation) >>= λ mode.
    parse_one_of ("customer_support" ∷ []) (get "purpose" claims) >>= λ purpose.
    parse_object ("homeRegion" ∷ "homeCell" ∷ "routingEpoch" ∷ []) (get "route" claims) >>= λ route.
    parse_opaque_id (get "homeRegion" route) >>= λ home_region.
    parse_opaque_id (get "homeCell" route) >>= λ home_cell.
    parse_number 1 (get "routingEpoch" route) >>= λ routing_epoch.
    parse_name (get "iss" claims) >>= λ issuer. parse_name (get "aud" claims) >>= λ audience.
    parse_number 0 (get "iat" claims) >>= λ iat. parse_number 1 (get "exp" claims) >>= λ exp.
    parse_object ("requestId" ∷ "traceId" ∷ "channelId" ∷ []) (get "request" claims) >>= λ request.
    parse_opaque_id (get "requestId" request) >>= λ request_id.
    parse_opaque_id (get "traceId" request) >>= λ trace_id.
    parse_opaque_id (get "channelId" request) >>= λ channel_id. ok (record {
      context = record {
        context_id = context_id;
        access = record {
          tenant_id = tenant_id;
          environment_id = environment_id;
          subject_customer_id = customer_id;
          routing_epoch = routing_epoch;
          request_id = request_id;
          trace_id = trace_id;
        };
      };
      principal_id = principal_id;
      iat = iat;
      exp = exp;
    })

unfoldable pub is_wrong_context : VerifierOptions → ℕ → ContextClaims → Bool
is_wrong_context options now_seconds c =
    not (str_eq c.context.access.tenant_id options.expected_tenant_id)
    || (not (str_eq c.context.access.environment_id options.expected_environment_id)
        || (not (str_eq c.principal_id c.context.access.subject_customer_id)
            || is_untimely c.iat c.exp now_seconds))

module _ (jose : Jose) where
  -- The function that `createHmacContextAssertionSigner` returns, at a context id and an instant.
  unfoldable pub sign_context :
      SignerOptions
      → Route
      → Option RefundPolicyBinding
      → ContextInput
      → String
      → ℕ
      → Result AssertionError String
  sign_context options route binding i context_id now =
      throw_if (not (is_valid_context i)) AssertionError.invalid_input
      >> ok (
          jose.sign options.secret "cso-context+jwt"
            (context_payload options route binding i context_id (seconds now)))

  unfoldable pub create_context_signer :
      SignerOptions
      → Route
      → Option RefundPolicyBinding
      → Result AssertionError (ContextInput → String → ℕ → Result AssertionError String)
  create_context_signer options route binding =
      check_signer jose options
      >> throw_if (not (is_valid_route route) || not (is_valid_binding binding))
          AssertionError.invalid_input
      >> ok (sign_context options route binding)

  -- The function that `createHmacContextAssertionVerifier` returns, at an instant.
  unfoldable pub verify_context :
      VerifierOptions → Option String → ℕ → Result AssertionError VerifiedContext
  verify_context options assertion now =
      open_token jose options "cso-context+jwt" assertion now >>= λ payload.
      parse_context_claims payload >>= λ claims.
      throw_if (is_wrong_context options (seconds now) claims) AssertionError.unauthorized
      >> ok claims.context

  unfoldable pub create_context_verifier :
      VerifierOptions
      → Result AssertionError (Option String → ℕ → Result AssertionError VerifiedContext)
  create_context_verifier options = check_secret jose options.secret >> ok (verify_context options)
