-- ===== src/Assertions/Workflow/Laws.antt =====
-- What the workers sign (apps/services/workflow-workers/src/workflow-access-assertion.ts) the gateway
-- verifies (apps/services/integration-gateway/src/workflow-access.ts), and what it verifies is good.
use customer_service_os_lite.Common.{
  ℕ, ◌+◌, ◌≤◌, ◌<◌, ◌≡◌, refl, sym, ap, ◌∙◌, true, false, not, Option, some, List, [], ◌∷◌, String,
  str_eq_iff, is_opaque_id, includes, Result, ok, >>=-eq-ok, throw_if-eq-ok, ok-injective, arith,
}
use customer_service_os_lite.Assertions.Json.{
  Json, AssertionError, get, has_only, is_name, parse_object, parse_opaque_id-is, parse_name-is,
  parse_one_of-is, parse_number-is,
}
use customer_service_os_lite.Assertions.Jose.{
  Jose, SignerOptions, VerifierOptions, seconds, check_secret, check_signer, is_unusable,
  open_token, open_token-is, check_signer-bounds, open_token-verified, is_untimely-times,
  is_untimely, is_untimely_fresh,
}
use customer_service_os_lite.Assertions.Workflow.{
  Purpose, purpose_text, SignInput, is_valid_input, access_payload, OrderAccess, AccessClaims,
  parse_access_claims, is_wrong_access, sign_access, create_access_signer, verify_access,
  create_access_verifier,
}

abbrev pub gateway_purposes : List String
gateway_purposes = "refund_fact_refresh" ∷ "refund_execute" ∷ "refund_reconcile" ∷ []

-- What the gateway's routes get of an input.
abbrev pub access_of : SignInput → OrderAccess
access_of i = record {
  context_id = i.workflow_id;
  tenant_id = i.access.tenant_id;
  environment_id = i.access.environment_id;
  subject_customer_id = i.access.subject_customer_id;
  routing_epoch = 1;
  request_id = i.access.request_id;
  trace_id = i.access.trace_id;
}

parse-payload :
    (options : SignerOptions) (i : SignInput) (issued_at : ℕ)
    → is_valid_input i ≡ true
    → is_name options.issuer ≡ true
    → is_name options.audience ≡ true
    → includes gateway_purposes (purpose_text i.purpose) ≡ true
    → 1 ≤ options.lifetime_seconds
    → parse_access_claims (access_payload options i issued_at)
      ≡ ok (record {
        access = access_of i;
        purpose = purpose_text i.purpose;
        iat = issued_at;
        exp = issued_at + options.lifetime_seconds;
      })
unfolding parse_access_claims access_payload is_valid_input get parse_object has_only
parse-payload options i issued_at valid issuer audience purpose positive =
    let opaque = λ (s : String) (h : is_opaque_id 160 s ≡ true). parse_opaque_id-is s h in
    rw
      (
        parse_one_of-is ("1" ∷ []) "1" refl,
        opaque i.workflow_id (ground arith),
        opaque i.access.tenant_id (ground arith),
        opaque i.access.environment_id (ground arith),
        opaque i.access.subject_customer_id (ground arith),
        parse_one_of-is gateway_purposes (purpose_text i.purpose) purpose,
        opaque i.access.request_id (ground arith),
        opaque i.access.trace_id (ground arith),
        parse_name-is options.issuer issuer,
        parse_name-is options.audience audience,
        parse_number-is 0 issued_at (omega arith),
        parse_number-is 1 (issued_at + options.lifetime_seconds) (omega arith),
      )
      refl

fresh_claims :
    (options : VerifierOptions) (i : SignInput) (issued_at lifetime now : ℕ)
    → i.access.tenant_id ≡ options.expected_tenant_id
    → i.access.environment_id ≡ options.expected_environment_id
    → is_untimely issued_at (issued_at + lifetime) now ≡ false
    → is_wrong_access options i.purpose now (record {
      access = access_of i;
      purpose = purpose_text i.purpose;
      iat = issued_at;
      exp = issued_at + lifetime;
    })
      ≡ false
unfolding is_wrong_access
fresh_claims options i issued_at lifetime now tenant environment timely =
    let t = (str_eq_iff i.access.tenant_id options.expected_tenant_id).1 tenant in
    let e = (str_eq_iff i.access.environment_id options.expected_environment_id).1 environment in
    let p = (str_eq_iff (purpose_text i.purpose) (purpose_text i.purpose)).1 refl in ground arith

right_access :
    (options : VerifierOptions) (p : Purpose) (now : ℕ) (c : AccessClaims)
    → is_wrong_access options p now c ≡ false
    → (c.access.tenant_id ≡ options.expected_tenant_id)
      × (c.access.environment_id ≡ options.expected_environment_id)
      × (c.purpose ≡ purpose_text p)
      × (is_untimely c.iat c.exp now ≡ false)
unfolding is_wrong_access
right_access options p now c h =
    let t = str_eq_iff c.access.tenant_id options.expected_tenant_id in
    let e = str_eq_iff c.access.environment_id options.expected_environment_id in
    let q = str_eq_iff c.purpose (purpose_text p) in
    (t.0 (ground arith), e.0 (ground arith), q.0 (ground arith), ground arith)

module _ (jose : Jose) (signer : SignerOptions) (verifier : VerifierOptions) where
  sign_access-parts :
      (i : SignInput) (token : String) (now : ℕ)
      → sign_access jose signer i now ≡ ok token
      → (is_valid_input i ≡ true)
        × (token
            ≡ jose.sign signer.secret "cso-workflow+jwt" (access_payload signer i (seconds now)))
  unfolding sign_access
  sign_access-parts i token now h =
      let (valid, is) = throw_if-eq-ok (not (is_valid_input i)) AssertionError.invalid_input _ h in
      (ground arith, sym (ok-injective is))

  -- What a workflow's worker signs, the gateway takes: an assertion that a signer has made at an instant
  -- for a purpose is verified by a verifier that expects this purpose, one of the gateway's three, and
  -- the tenant and environment of the input, and gives the access of the input. The signer's issuer and
  -- audience have 1 to 200 characters, the token is not empty and has at most 8192, its lifetime is
  -- not over in the verifier's seconds, the verifier's clock is at most 30 seconds behind, and jose
  -- gives the signed payload back.
  pub verify_access-sign_access :
      (sign : SignInput → ℕ → Result AssertionError String)
      (verify : Option String → ℕ → Result AssertionError OrderAccess) (i : SignInput)
      (token : String) (signed_at verified_at : ℕ)
      → create_access_signer jose signer ≡ ok sign
      → create_access_verifier jose verifier i.purpose ≡ ok verify
      → sign i signed_at ≡ ok token
      → i.access.tenant_id ≡ verifier.expected_tenant_id
      → i.access.environment_id ≡ verifier.expected_environment_id
      → includes gateway_purposes (purpose_text i.purpose) ≡ true
      → is_name signer.issuer ≡ true
      → is_name signer.audience ≡ true
      → is_unusable jose token ≡ false
      → seconds signed_at ≤ seconds verified_at + 30
      → seconds verified_at < seconds signed_at + signer.lifetime_seconds
      → jose.verify
          (jose.sign signer.secret "cso-workflow+jwt" (access_payload signer i (seconds signed_at)))
          verifier.secret
          (record {
            issuer = verifier.expected_issuer;
            audience = verifier.expected_audience;
            typ = "cso-workflow+jwt";
            now_seconds = seconds verified_at;
          })
        ≡ some (access_payload signer i (seconds signed_at))
      → verify (some token) verified_at ≡ ok (access_of i)
  unfolding create_access_signer create_access_verifier verify_access
  verify_access-sign_access sign verify i token signed_at verified_at made made' signs tenant
        environment purpose issuer audience usable early late verified =
      let (u, checked, is) = >>=-eq-ok (check_signer jose signer) _ made in
      let (u', checked', is') = >>=-eq-ok (check_secret jose verifier.secret) _ made' in
      let bounds = check_signer-bounds jose signer checked in
      let (valid, token_is) = sign_access-parts i token signed_at (
        ap (λ (f : SignInput → ℕ → Result AssertionError String). f i signed_at) (ok-injective is)
        ∙ signs) in
      let timely =
        is_untimely_fresh (seconds signed_at) signer.lifetime_seconds (seconds verified_at) bounds
          early late in
      ap (λ (f : Option String → ℕ → Result AssertionError OrderAccess). f (some token) verified_at)
        (sym (ok-injective is'))
      ∙ rw
          (
            open_token-is jose verifier "cso-workflow+jwt" token verified_at
                (access_payload signer i (seconds signed_at)) usable
                (ap
                    (λ t. jose.verify t verifier.secret (record {
                      issuer = verifier.expected_issuer;
                      audience = verifier.expected_audience;
                      typ = "cso-workflow+jwt";
                      now_seconds = seconds verified_at;
                    }))
                    token_is
                  ∙ verified),
            parse-payload signer i (seconds signed_at) valid issuer audience purpose (ground arith),
            fresh_claims verifier i (seconds signed_at) signer.lifetime_seconds
                (seconds verified_at) tenant environment timely,
          )
          refl

module _ (jose : Jose) (verifier : VerifierOptions) where
  -- What the gateway takes is good: when an assertion is verified at an instant, there is a token that
  -- jose verifies with the secret, the issuer and the audience that are expected, and the claims of its
  -- payload name the expected tenant and environment, the expected purpose, and times at which they are
  -- issued at most 30 seconds ahead, not expired, and not valid for more than 300 seconds; the access is
  -- that of the claims.
  pub verify_access_sound :
      (expected_purpose : Purpose) (assertion : Option String) (now : ℕ) (access : OrderAccess)
      → verify_access jose verifier expected_purpose assertion now ≡ ok access
      → (token : String) × (payload : Json) × (claims : AccessClaims) × (assertion ≡ some token)
        × (jose.verify token verifier.secret (record {
          issuer = verifier.expected_issuer;
          audience = verifier.expected_audience;
          typ = "cso-workflow+jwt";
          now_seconds = seconds now;
        })
            ≡ some payload)
        × (parse_access_claims payload ≡ ok claims)
        × (claims.access.tenant_id ≡ verifier.expected_tenant_id)
        × (claims.access.environment_id ≡ verifier.expected_environment_id)
        × (claims.purpose ≡ purpose_text expected_purpose)
        × (claims.iat ≤ seconds now + 30)
        × (seconds now < claims.exp)
        × (claims.exp ≤ claims.iat + 300)
        × (access ≡ claims.access)
  unfolding verify_access
  verify_access_sound expected_purpose assertion now access h =
      let (payload, opened, h1) =
        >>=-eq-ok (open_token jose verifier "cso-workflow+jwt" assertion now) _ h in
      let (claims, parsed, h2) = >>=-eq-ok (parse_access_claims payload) _ h1 in
      let (right, is) =
        throw_if-eq-ok (is_wrong_access verifier expected_purpose (seconds now) claims)
          AssertionError.unauthorized _ h2 in
      let (token, there, verified) =
        open_token-verified jose verifier "cso-workflow+jwt" assertion now payload opened in
      let (tenant, environment, purpose, timely) =
        right_access verifier expected_purpose (seconds now) claims right in
      let (early, late, short) = is_untimely-times claims.iat claims.exp (seconds now) timely in
      (
        token,
        payload,
        claims,
        there,
        verified,
        parsed,
        tenant,
        environment,
        purpose,
        early,
        late,
        short,
        sym (ok-injective is),
      )
