-- ===== src/Tests/Assertions.antt =====
-- Tests of the assertions between apps/services/edge-api, workflow-workers, integration-gateway and
-- conversation-runtime.
use customer_service_os_lite.Common.{
  ◌+◌, ◌≤◌, ◌<◌, ◌≡◌, refl, true, false, includes, none, some, String, ok, arith,
}
use customer_service_os_lite.Assertions.Json.{
  Json, get, has_only, is_name, parse_object, parse_opaque_id, parse_name, parse_one_of,
  parse_number,
}
use customer_service_os_lite.Assertions.Jose.{
  Jose, SignerOptions, VerifierOptions, seconds, check_secret, check_signer, is_unusable,
  open_token, is_untimely,
}
use customer_service_os_lite.Assertions.Workflow.{
  Purpose, SignInput, AccessClaims, access_payload, purpose_text, is_valid_input,
  parse_access_claims, is_wrong_access, sign_access, create_access_signer, verify_access,
  create_access_verifier,
}
use customer_service_os_lite.Assertions.Workflow.Laws.{
  gateway_purposes, access_of, verify_access-sign_access, verify_access_sound,
}
use customer_service_os_lite.Assertions.Context.{
  Identity, Route, ContextInput, context_payload, is_valid_context, is_valid_route,
  is_valid_binding, sign_context, create_context_signer, verify_context, create_context_verifier,
}
use customer_service_os_lite.Assertions.Context.Laws.{context_of, verify_context-sign_context}
use customer_service_os_lite.Assertions.Service.{
  ServiceInput, service_payload, sign_service, create_service_signer, verify_service,
  create_service_verifier,
}
use customer_service_os_lite.Assertions.Service.Laws.{
  access_of as service_access_of, verify_service-sign_service,
}

abbrev signer : SignerOptions
signer = record {
  secret = "secret";
  issuer = "workers";
  audience = "gateway";
  lifetime_seconds = 60;
}

abbrev verifier : VerifierOptions
verifier = record {
  secret = "secret";
  expected_issuer = "workers";
  expected_audience = "gateway";
  expected_tenant_id = "t";
  expected_environment_id = "e";
}

-- A library that has signed one payload, and gives it back.
abbrev jose_of : Json → Jose
jose_of payload = record {
  sign = λ secret typ signed. "token";
  verify = λ token secret options. some payload;
  byte_length = λ secret. 32;
}

abbrev refresh : SignInput
refresh = record {
  workflow_id = "w-1";
  access = record {
    tenant_id = "t";
    environment_id = "e";
    subject_customer_id = "c-1";
    request_id = "r";
    trace_id = "x";
  };
  purpose = Purpose.refund_fact_refresh;
}

abbrev access_jose : Jose
access_jose = jose_of (access_payload signer refresh 100)

makes_access_signer : create_access_signer access_jose signer ≡ ok (sign_access access_jose signer)
unfolding create_access_signer check_signer check_secret
makes_access_signer = refl

makes_access_verifier :
    create_access_verifier access_jose verifier Purpose.refund_fact_refresh
    ≡ ok (verify_access access_jose verifier Purpose.refund_fact_refresh)
unfolding create_access_verifier check_secret
makes_access_verifier = refl

signs_access : sign_access access_jose signer refresh 100500 ≡ ok "token"
unfolding sign_access is_valid_input
signs_access = refl

usable : is_unusable access_jose "token" ≡ false
unfolding is_unusable
usable = refl

named : is_name "workers" ≡ true
unfolding is_name
named = refl

named' : is_name "gateway" ≡ true
unfolding is_name
named' = refl

for_gateway : includes gateway_purposes (purpose_text refresh.purpose) ≡ true
unfolding purpose_text
for_gateway = refl

verify_access-sign_access_example :
    verify_access access_jose verifier Purpose.refund_fact_refresh (some "token") 130000
    ≡ ok (access_of refresh)
verify_access-sign_access_example =
    verify_access-sign_access access_jose signer verifier (sign_access access_jose signer)
      (verify_access access_jose verifier Purpose.refund_fact_refresh) refresh "token" 100500 130000
      makes_access_signer makes_access_verifier signs_access refl refl for_gateway named named'
      usable (omega arith) (omega arith) refl

verifies_access :
    verify_access access_jose verifier Purpose.refund_fact_refresh (some "token") 130000
    ≡ ok (access_of refresh)
unfolding verify_access open_token is_unusable parse_access_claims access_payload purpose_text get
    parse_object has_only parse_opaque_id parse_name is_name parse_one_of parse_number
    is_wrong_access is_untimely
verifies_access = refl

verify_access_sound_example :
    (token : String) × (payload : Json) × (claims : AccessClaims) × (some "token" ≡ some token)
    × (access_jose.verify token "secret" (record {
      issuer = "workers";
      audience = "gateway";
      typ = "cso-workflow+jwt";
      now_seconds = seconds 130000;
    })
        ≡ some payload)
    × (parse_access_claims payload ≡ ok claims)
    × (claims.access.tenant_id ≡ "t")
    × (claims.access.environment_id ≡ "e")
    × (claims.purpose ≡ purpose_text Purpose.refund_fact_refresh)
    × (claims.iat ≤ seconds 130000 + 30)
    × (seconds 130000 < claims.exp)
    × (claims.exp ≤ claims.iat + 300)
    × (access_of refresh ≡ claims.access)
verify_access_sound_example =
    verify_access_sound access_jose verifier Purpose.refund_fact_refresh (some "token") 130000
      (access_of refresh) verifies_access

abbrev home : Route
home = record { home_region = "eu"; home_cell = "a"; routing_epoch = 3 }

abbrev ada : Identity
ada = record { principal_id = "c-1"; tenant_id = "t"; environment_id = "e"; customer_id = "c-1" }

abbrev visit : ContextInput
visit = record { identity = ada; request_id = "r"; trace_id = "x"; channel_id = "web" }

abbrev context_jose : Jose
context_jose = jose_of (context_payload signer home none visit "ctx" 100)

makes_context_signer :
    create_context_signer context_jose signer home none
    ≡ ok (sign_context context_jose signer home none)
unfolding create_context_signer check_signer check_secret is_valid_route is_valid_binding
makes_context_signer = refl

makes_context_verifier :
    create_context_verifier context_jose verifier ≡ ok (verify_context context_jose verifier)
unfolding create_context_verifier check_secret
makes_context_verifier = refl

signs_context : sign_context context_jose signer home none visit "ctx" 100500 ≡ ok "token"
unfolding sign_context is_valid_context
signs_context = refl

context_usable : is_unusable context_jose "token" ≡ false
unfolding is_unusable
context_usable = refl

verify_context-sign_context_example :
    verify_context context_jose verifier (some "token") 130000 ≡ ok (context_of home visit "ctx")
verify_context-sign_context_example =
    verify_context-sign_context context_jose signer verifier home none visit "ctx"
      (sign_context context_jose signer home none) (verify_context context_jose verifier) "token"
      100500 130000 makes_context_signer makes_context_verifier signs_context refl refl refl named
      named' context_usable (omega arith) (omega arith) refl

abbrev reply : ServiceInput
reply = record { identity = ada; request_id = "r"; trace_id = "x" }

abbrev service_jose : Jose
service_jose = jose_of (service_payload signer 3 reply 100)

makes_service_signer :
    create_service_signer service_jose signer 3 ≡ ok (sign_service service_jose signer 3)
unfolding create_service_signer check_signer check_secret
makes_service_signer = refl

makes_service_verifier :
    create_service_verifier service_jose verifier ≡ ok (verify_service service_jose verifier)
unfolding create_service_verifier check_secret
makes_service_verifier = refl

signs_service : sign_service service_jose signer 3 reply 100500 ≡ ok "token"
unfolding sign_service is_valid_context
signs_service = refl

service_usable : is_unusable service_jose "token" ≡ false
unfolding is_unusable
service_usable = refl

verify_service-sign_service_example :
    verify_service service_jose verifier (some "token") 130000 ≡ ok (service_access_of 3 reply)
verify_service-sign_service_example =
    verify_service-sign_service service_jose signer verifier 3 reply
      (sign_service service_jose signer 3) (verify_service service_jose verifier) "token" 100500
      130000 makes_service_signer makes_service_verifier signs_service refl refl named named'
      service_usable (omega arith) (omega arith) refl
