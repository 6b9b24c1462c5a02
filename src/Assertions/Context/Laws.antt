-- ===== src/Assertions/Context/Laws.antt =====
-- What the edge signs (apps/services/edge-api/src/context-assertion.ts) the conversation runtime verifies
-- (apps/services/conversation-runtime/src/trusted-context.ts).
use customer_service_os_lite.Common.{
  and_parts, ℕ, ◌+◌, ◌≤◌, ◌<◌, ◌≡◌, refl, sym, ap, ◌∙◌, true, false, not, ◌||◌, Option, none, some,
  [], ◌∷◌, String, str_eq, str_eq_iff, is_opaque_id, Result, ok, err, ◌>>◌, >>=-eq-ok, throw_if,
  throw_if-eq-ok, ok-injective, arith,
}
use customer_service_os_lite.Assertions.Json.{
  AssertionError, get, has_only, is_name, parse_object, parse_opaque_id-is, parse_name-is,
  parse_one_of-is, parse_number-is,
}
use customer_service_os_lite.Assertions.Jose.{
  Jose, SignerOptions, VerifierOptions, seconds, check_secret, check_signer, is_unusable,
  open_token, open_token-is, check_signer-bounds, is_untimely, is_untimely_fresh,
}
use customer_service_os_lite.Assertions.Context.{
  Route, RefundPolicyBinding, ContextInput, is_valid_context, is_valid_route, is_valid_binding,
  context_payload, VerifiedContext, ContextClaims, parse_context_claims, is_wrong_context,
  sign_context, create_context_signer, verify_context, create_context_verifier,
}

-- What the runtime gets of an input.
abbrev pub context_of : Route → ContextInput → String → VerifiedContext
context_of route i context_id = record {
  context_id = context_id;
  access = record {
    tenant_id = i.identity.tenant_id;
    environment_id = i.identity.environment_id;
    subject_customer_id = i.identity.customer_id;
    routing_epoch = route.routing_epoch;
    request_id = i.request_id;
    trace_id = i.trace_id;
  };
}

-- The runtime's schema has no refund policy.
abbrev pub runtime_answer :
    Option RefundPolicyBinding → VerifiedContext → Result AssertionError VerifiedContext
runtime_answer none context = ok context
runtime_answer (some b) context = err AssertionError.unauthorized

abbrev claims_of : SignerOptions → Route → ContextInput → String → ℕ → ContextClaims
claims_of options route i context_id issued_at = record {
  context = context_of route i context_id;
  principal_id = i.identity.principal_id;
  iat = issued_at;
  exp = issued_at + options.lifetime_seconds;
}

pub valid_parts :
    (i : ContextInput)
    → is_valid_context i ≡ true
    → (is_opaque_id 160 i.identity.principal_id ≡ true)
      × (is_opaque_id 160 i.identity.tenant_id ≡ true)
      × (is_opaque_id 160 i.identity.environment_id ≡ true)
      × (is_opaque_id 160 i.identity.customer_id ≡ true)
      × (is_opaque_id 160 i.request_id ≡ true)
      × (is_opaque_id 160 i.trace_id ≡ true)
      × (is_opaque_id 160 i.channel_id ≡ true)
      × (str_eq i.identity.principal_id i.identity.customer_id ≡ true)
unfolding is_valid_context
valid_parts i valid =
    let (principal, h1) = and_parts (is_opaque_id 160 i.identity.principal_id) _ valid in
    let (tenant, h2) = and_parts (is_opaque_id 160 i.identity.tenant_id) _ h1 in
    let (environment, h3) = and_parts (is_opaque_id 160 i.identity.environment_id) _ h2 in
    let (customer, h4) = and_parts (is_opaque_id 160 i.identity.customer_id) _ h3 in
    let (request, h5) = and_parts (is_opaque_id 160 i.request_id) _ h4 in
    let (trace, h6) = and_parts (is_opaque_id 160 i.trace_id) _ h5 in
    let (channel, self) = and_parts (is_opaque_id 160 i.channel_id) _ h6 in
    (principal, tenant, environment, customer, request, trace, channel, self)

route_parts :
    (r : Route)
    → is_valid_route r ≡ true
    → (is_opaque_id 160 r.home_region ≡ true)
      × (is_opaque_id 160 r.home_cell ≡ true)
      × (1 ≤ r.routing_epoch)
unfolding is_valid_route
route_parts r valid =
    let (region, h1) = and_parts (is_opaque_id 160 r.home_region) _ valid in
    let (cell, h2) = and_parts (is_opaque_id 160 r.home_cell) _ h1 in (region, cell, ground arith)

module _ (options : SignerOptions) (route : Route) (i : ContextInput) (context_id : String)
    (issued_at : ℕ) where
  parse-bound :
      (b : RefundPolicyBinding)
      → parse_context_claims (context_payload options route (some b) i context_id issued_at)
        ≡ err AssertionError.unauthorized
  unfolding parse_context_claims context_payload parse_object has_only
  parse-bound b = refl

  parse-unbound :
      is_valid_context i ≡ true
      → is_valid_route route ≡ true
      → is_opaque_id 160 context_id ≡ true
      → is_name options.issuer ≡ true
      → is_name options.audience ≡ true
      → 1 ≤ options.lifetime_seconds
      → parse_context_claims (context_payload options route none i context_id issued_at)
        ≡ ok (claims_of options route i context_id issued_at)
  unfolding parse_context_claims context_payload get parse_object has_only
  parse-unbound valid routed named issuer audience positive =
      let (principal, tenant, environment, customer, request, trace, channel, self) =
        valid_parts i valid in
      let (region, cell, epoch) = route_parts route routed in
      rw
        (
          parse_one_of-is ("1" ∷ []) "1" refl,
          parse_opaque_id-is context_id named,
          parse_opaque_id-is i.identity.tenant_id tenant,
          parse_opaque_id-is i.identity.environment_id environment,
          parse_one_of-is ("end_customer" ∷ []) "end_customer" refl,
          parse_opaque_id-is i.identity.principal_id principal,
          parse_opaque_id-is i.identity.customer_id customer,
          parse_one_of-is ("self" ∷ []) "self" refl,
          parse_one_of-is ("customer_support" ∷ []) "customer_support" refl,
          parse_opaque_id-is route.home_region region,
          parse_opaque_id-is route.home_cell cell,
          parse_number-is 1 route.routing_epoch epoch,
          parse_name-is options.issuer issuer,
          parse_name-is options.audience audience,
          parse_number-is 0 issued_at (omega arith),
          parse_number-is 1 (issued_at + options.lifetime_seconds) (omega arith),
          parse_opaque_id-is i.request_id request,
          parse_opaque_id-is i.trace_id trace,
          parse_opaque_id-is i.channel_id channel,
        )
        refl

  fresh_claims :
      (verifier : VerifierOptions) (now : ℕ)
      → is_valid_context i ≡ true
      → i.identity.tenant_id ≡ verifier.expected_tenant_id
      → i.identity.environment_id ≡ verifier.expected_environment_id
      → is_untimely issued_at (issued_at + options.lifetime_seconds) now ≡ false
      → is_wrong_context verifier now (claims_of options route i context_id issued_at) ≡ false
  unfolding is_wrong_context
  fresh_claims verifier now valid tenant environment timely =
      let t = (str_eq_iff i.identity.tenant_id verifier.expected_tenant_id).1 tenant in
      let e =
        (str_eq_iff i.identity.environment_id verifier.expected_environment_id).1 environment in
      let self = (valid_parts i valid).7 in ground arith

signer-parts :
    (jose : Jose) (options : SignerOptions) (route : Route) (binding : Option RefundPolicyBinding)
    (sign : ContextInput → String → ℕ → Result AssertionError String)
    → create_context_signer jose options route binding ≡ ok sign
    → (check_signer jose options ≡ ok tt)
      × (is_valid_route route ≡ true)
      × (sign_context jose options route binding ≡ sign)
unfolding create_context_signer
signer-parts jose options route binding sign made =
    let (u, h, is) =
      >>=-eq-ok
        (check_signer jose options
          >> throw_if (not (is_valid_route route) || not (is_valid_binding binding))
              AssertionError.invalid_input)
        _ made in
    let (u', checked, valid) = >>=-eq-ok (check_signer jose options) _ h in
    (checked, ground arith, ok-injective is)

module _ (jose : Jose) (signer : SignerOptions) (verifier : VerifierOptions) (route : Route)
    (binding : Option RefundPolicyBinding) (i : ContextInput) (context_id : String) where
  sign_context-parts :
      (token : String) (now : ℕ)
      → sign_context jose signer route binding i context_id now ≡ ok token
      → (is_valid_context i ≡ true)
        × (token
            ≡ jose.sign signer.secret "cso-context+jwt"
                (context_payload signer route binding i context_id (seconds now)))
  unfolding sign_context
  sign_context-parts token now h =
      let (valid, is) =
        throw_if-eq-ok (not (is_valid_context i)) AssertionError.invalid_input _ h in
      (ground arith, sym (ok-injective is))

  verify_context-binding :
      (token : String) (signed_at verified_at : ℕ)
      → is_valid_context i ≡ true
      → is_valid_route route ≡ true
      → i.identity.tenant_id ≡ verifier.expected_tenant_id
      → i.identity.environment_id ≡ verifier.expected_environment_id
      → is_opaque_id 160 context_id ≡ true
      → is_name signer.issuer ≡ true
      → is_name signer.audience ≡ true
      → 1 ≤ signer.lifetime_seconds
      → is_untimely
          (seconds signed_at)
          (seconds signed_at + signer.lifetime_seconds)
          (seconds verified_at)
        ≡ false
      → open_token jose verifier "cso-context+jwt" (some token) verified_at
        ≡ ok (context_payload signer route binding i context_id (seconds signed_at))
      → verify_context jose verifier (some token) verified_at
        ≡ runtime_answer binding (context_of route i context_id)
  unfolding verify_context
  verify_context-binding token signed_at verified_at valid routed tenant environment named issuer
        audience positive timely opened =
      answer binding opened
    where
      answer :
          (b : Option RefundPolicyBinding)
          → open_token jose verifier "cso-context+jwt" (some token) verified_at
            ≡ ok (context_payload signer route b i context_id (seconds signed_at))
          → verify_context jose verifier (some token) verified_at
            ≡ runtime_answer b (context_of route i context_id)
      answer none is =
          rw
            (
              is,
              parse-unbound signer route i context_id (seconds signed_at) valid routed named issuer
                  audience positive,
              fresh_claims signer route i context_id (seconds signed_at) verifier
                  (seconds verified_at) valid tenant environment timely,
            )
            refl
      answer (some b) is = rw (is, parse-bound signer route i context_id (seconds signed_at) b) refl

  -- What the edge signs for a customer, the conversation runtime takes: an assertion that a signer has
  -- made at an instant under a context id, an opaque id, is verified by a verifier that expects the
  -- tenant and environment of the input, and gives the context of the input; but if the signer puts a
  -- refund policy into its assertions, the verifier refuses them. The signer's issuer and audience have
  -- 1 to 200 characters, the token is not empty and has at most 8192, its lifetime is not over in the
  -- verifier's seconds, the verifier's clock is at most 30 seconds behind, and jose gives the signed
  -- payload back.
  pub verify_context-sign_context :
      (sign : ContextInput → String → ℕ → Result AssertionError String)
      (verify : Option String → ℕ → Result AssertionError VerifiedContext) (token : String)
      (signed_at verified_at : ℕ)
      → create_context_signer jose signer route binding ≡ ok sign
      → create_context_verifier jose verifier ≡ ok verify
      → sign i context_id signed_at ≡ ok token
      → i.identity.tenant_id ≡ verifier.expected_tenant_id
      → i.identity.environment_id ≡ verifier.expected_environment_id
      → is_opaque_id 160 context_id ≡ true
      → is_name signer.issuer ≡ true
      → is_name signer.audience ≡ true
      → is_unusable jose token ≡ false
      → seconds signed_at ≤ seconds verified_at + 30
      → seconds verified_at < seconds signed_at + signer.lifetime_seconds
      → jose.verify
          (jose.sign signer.secret "cso-context+jwt"
            (context_payload signer route binding i context_id (seconds signed_at)))
          verifier.secret
          (record {
            issuer = verifier.expected_issuer;
            audience = verifier.expected_audience;
            typ = "cso-context+jwt";
            now_seconds = seconds verified_at;
          })
        ≡ some (context_payload signer route binding i context_id (seconds signed_at))
      → verify (some token) verified_at ≡ runtime_answer binding (context_of route i context_id)
  unfolding create_context_verifier
  verify_context-sign_context sign verify token signed_at verified_at made made' signs tenant
        environment named issuer audience usable early late verified =
      let (checked, routed, is) = signer-parts jose signer route binding sign made in
      let (u', checked', is') = >>=-eq-ok (check_secret jose verifier.secret) _ made' in
      let bounds = check_signer-bounds jose signer checked in
      let (valid, token_is) = sign_context-parts token signed_at (
        ap
          (λ (f : ContextInput → String → ℕ → Result AssertionError String).
            f i context_id signed_at)
          is
        ∙ signs) in
      let opened =
        open_token-is jose verifier "cso-context+jwt" token verified_at
          (context_payload signer route binding i context_id (seconds signed_at)) usable
          (ap
              (λ t. jose.verify t verifier.secret (record {
                issuer = verifier.expected_issuer;
                audience = verifier.expected_audience;
                typ = "cso-context+jwt";
                now_seconds = seconds verified_at;
              }))
              token_is
            ∙ verified) in
      ap
        (λ (f : Option String → ℕ → Result AssertionError VerifiedContext).
          f (some token) verified_at)
        (sym (ok-injective is'))
      ∙ verify_context-binding token signed_at verified_at valid routed tenant environment named
          issuer audience (ground arith)
          (is_untimely_fresh (seconds signed_at) signer.lifetime_seconds (seconds verified_at)
            bounds early late)
          opened
