-- ===== src/Assertions/Jose.antt =====
-- What the services take from the jose library, and the checks that their signers and verifiers share
-- (apps/services/workflow-workers/src/workflow-access-assertion.ts,
-- apps/services/integration-gateway/src/workflow-access.ts,
-- apps/services/edge-api/src/context-assertion.ts and
-- apps/services/conversation-runtime/src/trusted-context.ts).
use customer_service_os_lite.Common.{>>=-eq-ok, throw_if-eq-ok}
use customer_service_os_lite.Common.{
  ℕ, ◌+◌, ◌-◌, ◌/◌, ◌≤◌, ◌<◌, ◌≡◌, refl, Bool, false, ◌||◌, Option, none, some, String, str_eq,
  codes, ltb, leb, Result, ok, err, ◌>>◌, throw_if, or_throw, arith,
}
use customer_service_os_lite.Common.Lists.{length}
use customer_service_os_lite.Common.Sort.{utf16}
use customer_service_os_lite.Assertions.Json.{Json, Fields, AssertionError}

-- A token's header has a type beside the algorithm, which is always HS256.
pub record VerifyOptions : Type 0 where
  pub issuer : String
  pub audience : String
  pub typ : String
  pub now_seconds : ℕ

-- `new SignJWT(claims)…sign(key)` under a header's type, and `jwtVerify`, which gives the payload or
-- throws. The bytes of a secret are those of its UTF-8 form.
pub record Jose : Type 0 where
  pub sign : (secret typ : String) → (payload : Json) → String
  pub verify : (token secret : String) → VerifyOptions → Option Json
  pub byte_length : String → ℕ

pub record SignerOptions : Type 0 where
  pub secret : String
  pub issuer : String
  pub audience : String
  pub lifetime_seconds : ℕ

pub record VerifierOptions : Type 0 where
  pub secret : String
  pub expected_issuer : String
  pub expected_audience : String
  pub expected_tenant_id : String
  pub expected_environment_id : String

-- `.setIssuer(…).setAudience(…).setIssuedAt(…).setExpirationTime(…)`
abbrev pub registered : SignerOptions → ℕ → Fields
registered options issued_at = Fields.field "iss" (Json.text options.issuer) (
    Fields.field "aud" (Json.text options.audience) (
      Fields.field "iat" (Json.number issued_at)
        (Fields.field "exp" (Json.number (issued_at + options.lifetime_seconds)) Fields.end)))

-- `Math.floor(now().getTime() / 1_000)`
abbrev pub seconds : ℕ → ℕ
seconds now = now / 1000

module _ (jose : Jose) where
  unfoldable pub check_secret : String → Result AssertionError (Unit {0})
  check_secret secret = throw_if (ltb (jose.byte_length secret) 32) AssertionError.bad_secret

  unfoldable pub check_signer : SignerOptions → Result AssertionError (Unit {0})
  check_signer options =
      check_secret options.secret
      >> throw_if (ltb options.lifetime_seconds 1 || ltb 300 options.lifetime_seconds)
          AssertionError.bad_lifetime

  -- `!assertion || assertion.length > 8_192`
  unfoldable pub is_unusable : String → Bool
  is_unusable token = str_eq token "" || ltb 8192 (length (utf16 (codes token)))

  -- The payload of a token that jose verifies.
  unfoldable pub open_token :
      VerifierOptions → String → Option String → ℕ → Result AssertionError Json
  open_token options typ none now = err AssertionError.unauthorized
  open_token options typ (some token) now =
      throw_if (is_unusable token) AssertionError.unauthorized
      >> or_throw
          (jose.verify token options.secret (record {
            issuer = options.expected_issuer;
            audience = options.expected_audience;
            typ = typ;
            now_seconds = seconds now;
          }))
          AssertionError.unauthorized

-- The times of the claims, in seconds.
unfoldable pub is_untimely : ℕ → ℕ → ℕ → Bool
is_untimely issued_at expires now =
    ltb (now + 30) issued_at
    || (leb expires now || (leb expires issued_at || ltb 300 (expires - issued_at)))

-- A lifetime of 1 to 300 seconds is timely until it has passed, to a clock that is at most 30 seconds
-- behind.
pub is_untimely_fresh :
    (issued_at lifetime now : ℕ)
    → (ltb lifetime 1 || ltb 300 lifetime) ≡ false
    → issued_at ≤ now + 30
    → now < issued_at + lifetime
    → is_untimely issued_at (issued_at + lifetime) now ≡ false
unfolding is_untimely
is_untimely_fresh issued_at lifetime now bounds early late = ground arith

module _ (jose : Jose) where
  pub open_token-is :
      (options : VerifierOptions) (typ token : String) (now : ℕ) (payload : Json)
      → is_unusable jose token ≡ false
      → jose.verify token options.secret (record {
        issuer = options.expected_issuer;
        audience = options.expected_audience;
        typ = typ;
        now_seconds = seconds now;
      })
        ≡ some payload
      → open_token jose options typ (some token) now ≡ ok payload
  unfolding open_token
  open_token-is options typ token now payload usable verified = ground arith

  pub check_signer-bounds :
      (options : SignerOptions)
      → check_signer jose options ≡ ok tt
      → (ltb options.lifetime_seconds 1 || ltb 300 options.lifetime_seconds) ≡ false
  unfolding check_signer
  check_signer-bounds options h =
      let (u, first, second) = >>=-eq-ok (check_secret jose options.secret) _ h in ground arith

pub or_throw-is :
    {Thrown A : Type 0} (value : Option A) (error : Thrown) (a : A)
    → or_throw value error ≡ ok a
    → value ≡ some a
or_throw-is none error a h = cc h
or_throw-is (some x) error a h = cc h

-- A token that is opened has been verified by jose.
pub open_token-verified :
    (jose : Jose) (options : VerifierOptions) (typ : String) (assertion : Option String) (now : ℕ)
    (payload : Json)
    → open_token jose options typ assertion now ≡ ok payload
    → (token : String) × (assertion ≡ some token)
      × (jose.verify token options.secret (record {
        issuer = options.expected_issuer;
        audience = options.expected_audience;
        typ = typ;
        now_seconds = seconds now;
      })
          ≡ some payload)
unfolding open_token
open_token-verified jose options typ none now payload h = cc h
open_token-verified jose options typ (some token) now payload h =
    let (usable, verified) =
      throw_if-eq-ok (is_unusable jose token) AssertionError.unauthorized _ h in
    (token, refl, or_throw-is _ AssertionError.unauthorized payload verified)

pub is_untimely-times :
    (issued_at expires now : ℕ)
    → is_untimely issued_at expires now ≡ false
    → (issued_at ≤ now + 30) × (now < expires) × (expires ≤ issued_at + 300)
unfolding is_untimely
is_untimely-times issued_at expires now h = (ground arith, ground arith, ground arith)
