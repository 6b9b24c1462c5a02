-- ===== src/Assertions/Service/Laws.antt =====
-- What the edge signs for itself (apps/services/edge-api/src/context-assertion.ts) and what the
-- conversation runtime takes (apps/services/conversation-runtime/src/service-assertion.ts).
use customer_service_os_lite.Common.{
  ℕ, ◌+◌, ◌≤◌, ◌<◌, ◌≡◌, refl, sym, ap, ◌∙◌, true, false, not, Option, some, [], ◌∷◌, String,
  str_eq_iff, Result, ok, ◌>>◌, >>=-eq-ok, throw_if, throw_if-eq-ok, ok-injective, leb, arith,
}
use customer_service_os_lite.Conversations.Types.{AccessContext}
use customer_service_os_lite.Assertions.Json.{
  AssertionError, get, has_only, is_name, parse_object, parse_opaque_id-is, parse_name-is,
  parse_one_of-is, parse_number-is,
}
use customer_service_os_lite.Assertions.Jose.{
  Jose, SignerOptions, VerifierOptions, seconds, check_secret, check_signer, is_unusable,
  open_token-is, check_signer-bounds, is_untimely, is_untimely_fresh,
}
use customer_service_os_lite.Assertions.Context.{is_valid_context}
use customer_service_os_lite.Assertions.Context.Laws.{valid_parts}
use customer_service_os_lite.Assertions.Service.{
  ServiceInput, with_channel, service_payload, ServiceClaims, parse_service_claims,
  is_wrong_service, sign_service, create_service_signer, verify_service, create_service_verifier,
}

abbrev pub access_of : ℕ → ServiceInput → AccessContext
access_of routing_epoch i = record {
  tenant_id = i.identity.tenant_id;
  environment_id = i.identity.environment_id;
  subject_customer_id = i.identity.customer_id;
  routing_epoch = routing_epoch;
  request_id = i.request_id;
  trace_id = i.trace_id;
}

module _ (options : SignerOptions) (epoch : ℕ) (i : ServiceInput) (issued_at : ℕ) where
  abbrev claims : ServiceClaims
  claims = record {
    access = access_of epoch i;
    iat = issued_at;
    exp = issued_at + options.lifetime_seconds;
  }

  parse-payload :
      is_valid_context (with_channel i) ≡ true
      → 1 ≤ epoch
      → is_name options.issuer ≡ true
      → is_name options.audience ≡ true
      → 1 ≤ options.lifetime_seconds
      → parse_service_claims (service_payload options epoch i issued_at) ≡ ok claims
  unfolding parse_service_claims service_payload get parse_object has_only
  parse-payload valid routed issuer audience positive =
      let (principal, tenant, environment, customer, request, trace, channel, self) =
        valid_parts (with_channel i) valid in
      rw
        (
          parse_opaque_id-is i.identity.tenant_id tenant,
          parse_opaque_id-is i.identity.environment_id environment,
          parse_opaque_id-is i.identity.customer_id customer,
          parse_opaque_id-is i.request_id request,
          parse_opaque_id-is i.trace_id trace,
          parse_number-is 1 epoch routed,
          parse_one_of-is ("conversation_assistant_message" ∷ []) "conversation_assistant_message"
              refl,
          parse_name-is options.issuer issuer,
          parse_name-is options.audience audience,
          parse_number-is 0 issued_at (omega arith),
          parse_number-is 1 (issued_at + options.lifetime_seconds) (omega arith),
        )
        refl

  fresh_claims :
      (verifier : VerifierOptions) (now : ℕ)
      → i.identity.tenant_id ≡ verifier.expected_tenant_id
      → i.identity.environment_id ≡ verifier.expected_environment_id
      → is_untimely issued_at (issued_at + options.lifetime_seconds) now ≡ false
      → is_wrong_service verifier now claims ≡ false
  unfolding is_wrong_service
  fresh_claims verifier now tenant environment timely =
      let t = (str_eq_iff i.identity.tenant_id verifier.expected_tenant_id).1 tenant in
      let e =
        (str_eq_iff i.identity.environment_id verifier.expected_environment_id).1 environment in
      ground arith

signer-parts :
    (jose : Jose) (options : SignerOptions) (epoch : ℕ)
    (sign : ServiceInput → ℕ → Result AssertionError String)
    → create_service_signer jose options epoch ≡ ok sign
    → (check_signer jose options ≡ ok tt) × (1 ≤ epoch) × (sign_service jose options epoch ≡ sign)
unfolding create_service_signer
signer-parts jose options epoch sign made =
    let (u, h, is) =
      >>=-eq-ok
        (check_signer jose options >> throw_if (not (leb 1 epoch)) AssertionError.invalid_input) _
        made in
    let (u', checked, valid) = >>=-eq-ok (check_signer jose options) _ h in
    (checked, ground arith, ok-injective is)

module _ (jose : Jose) (signer : SignerOptions) (verifier : VerifierOptions) (epoch : ℕ)
    (i : ServiceInput) where
  sign_service-parts :
      (token : String) (now : ℕ)
      → sign_service jose signer epoch i now ≡ ok token
      → (is_valid_context (with_channel i) ≡ true)
        × (token
            ≡ jose.sign signer.secret "cso-service+jwt"
                (service_payload signer epoch i (seconds now)))
  unfolding sign_service
  sign_service-parts token now h =
      let (valid, is) =
        throw_if-eq-ok (not (is_valid_context (with_channel i))) AssertionError.invalid_input _ h in
      (ground arith, sym (ok-injective is))

  -- What the edge signs for itself, the conversation runtime takes: a service assertion that a signer
  -- has made at an instant is verified by a verifier that expects the tenant and environment of the
  -- input, and gives the customer of the input under the signer's routing epoch. The signer's issuer and
  -- audience have 1 to 200 characters, the token is not empty and has at most 8192, its lifetime is not
  -- over in the verifier's seconds, the verifier's clock is at most 30 seconds behind, and jose gives
  -- the signed payload back.
  pub verify_service-sign_service :
      (sign : ServiceInput → ℕ → Result AssertionError String)
      (verify : Option String → ℕ → Result AssertionError AccessContext) (token : String)
      (signed_at verified_at : ℕ)
      → create_service_signer jose signer epoch ≡ ok sign
      → create_service_verifier jose verifier ≡ ok verify
      → sign i signed_at ≡ ok token
      → i.identity.tenant_id ≡ verifier.expected_tenant_id
      → i.identity.environment_id ≡ verifier.expected_environment_id
      → is_name signer.issuer ≡ true
      → is_name signer.audience ≡ true
      → is_unusable jose token ≡ false
      → seconds signed_at ≤ seconds verified_at + 30
      → seconds verified_at < seconds signed_at + signer.lifetime_seconds
      → jose.verify
          (jose.sign signer.secret "cso-service+jwt"
            (service_payload signer epoch i (seconds signed_at)))
          verifier.secret
          (record {
            issuer = verifier.expected_issuer;
            audience = verifier.expected_audience;
            typ = "cso-service+jwt";
            now_seconds = seconds verified_at;
          })
        ≡ some (service_payload signer epoch i (seconds signed_at))
      → verify (some token) verified_at ≡ ok (access_of epoch i)
  unfolding create_service_verifier verify_service
  verify_service-sign_service sign verify token signed_at verified_at made made' signs tenant
        environment issuer audience usable early late verified =
      let (checked, routed, is) = signer-parts jose signer epoch sign made in
      let (u', checked', is') = >>=-eq-ok (check_secret jose verifier.secret) _ made' in
      let bounds = check_signer-bounds jose signer checked in
      let (valid, token_is) =
        sign_service-parts token signed_at (
          ap (λ (f : ServiceInput → ℕ → Result AssertionError String). f i signed_at) is ∙ signs) in
      let timely =
        is_untimely_fresh (seconds signed_at) signer.lifetime_seconds (seconds verified_at) bounds
          early late in
      let positive : 1 ≤ signer.lifetime_seconds = ground arith in
      let opened =
        open_token-is jose verifier "cso-service+jwt" token verified_at
          (service_payload signer epoch i (seconds signed_at)) usable
          (ap
              (λ t. jose.verify t verifier.secret (record {
                issuer = verifier.expected_issuer;
                audience = verifier.expected_audience;
                typ = "cso-service+jwt";
                now_seconds = seconds verified_at;
              }))
              token_is
            ∙ verified) in
      ap
        (λ (f : Option String → ℕ → Result AssertionError AccessContext).
          f (some token) verified_at)
        (sym (ok-injective is'))
      ∙ rw
          (
            opened,
            parse-payload signer epoch i (seconds signed_at) valid routed issuer audience positive,
            fresh_claims signer epoch i (seconds signed_at) verifier (seconds verified_at) tenant
                environment timely,
          )
          refl
