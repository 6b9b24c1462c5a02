-- ===== src/Assertions/Json.antt =====
-- The claims of an assertion as JSON, and the schemas that the verifiers of
-- apps/services/integration-gateway/src/workflow-access.ts and
-- apps/services/conversation-runtime/src/trusted-context.ts and service-assertion.ts check them with.
use customer_service_os_lite.Common.{
  ℕ, ◌≤◌, ◌≡◌, arith, Bool, true, not, ◌&&◌, Option, none, some, List, String, str_eq, codes,
  includes, is_opaque_id, leb, if◌then◌else◌, Result, ok, err,
}
use customer_service_os_lite.Common.Lists.{length}
use customer_service_os_lite.Common.Sort.{utf16}

-- `other` is any other value: null, a Boolean, an array, a number that is negative or no integer.
mutual
  pub data Json : Type 0 where
    text : String → Json
    number : ℕ → Json
    object : Fields → Json
    other : Json

  pub data Fields : Type 0 where
    end : Fields
    field : String → Json → Fields → Fields

-- What leaves a signer or a verifier: the plain `Error`s of their options, the error of the schema of
-- a signer's input, and the verifiers' one error.
pub data AssertionError : Type 0 where
  bad_secret bad_lifetime invalid_input unauthorized : AssertionError

unfoldable pub get : String → Fields → Option Json
get name Fields.end = none
get name (Fields.field key value fields) =
    let rest = get name fields in if str_eq key name then some value else rest

-- `.strict()`: no other key
unfoldable pub has_only : List String → Fields → Bool
has_only names Fields.end = true
has_only names (Fields.field key value fields) =
    let rest = has_only names fields in includes names key && rest

abbrev pub Parsed : Type 0 → Type 0
Parsed A = Result AssertionError A

-- `z.object({…}).strict()` with these keys
unfoldable pub parse_object : List String → Option Json → Parsed Fields
parse_object names (some (Json.object fields)) =
    if has_only names fields then ok fields else err AssertionError.unauthorized
parse_object names _ = err AssertionError.unauthorized

-- `opaqueId`
unfoldable pub parse_opaque_id : Option Json → Parsed String
parse_opaque_id (some (Json.text s)) =
    if is_opaque_id 160 s then ok s else err AssertionError.unauthorized
parse_opaque_id _ = err AssertionError.unauthorized

-- `z.string().min(1).max(200)`; the length of a text is that of its UTF-16 form
unfoldable pub is_name : String → Bool
is_name s = not (str_eq s "") && leb (length (utf16 (codes s))) 200

unfoldable pub parse_name : Option Json → Parsed String
parse_name (some (Json.text s)) = if is_name s then ok s else err AssertionError.unauthorized
parse_name _ = err AssertionError.unauthorized

-- `z.literal(text)` and `z.enum(texts)`
unfoldable pub parse_one_of : List String → Option Json → Parsed String
parse_one_of texts (some (Json.text s)) =
    if includes texts s then ok s else err AssertionError.unauthorized
parse_one_of texts _ = err AssertionError.unauthorized

-- `z.number().int().min(least)`
unfoldable pub parse_number : ℕ → Option Json → Parsed ℕ
parse_number least (some (Json.number n)) =
    if leb least n then ok n else err AssertionError.unauthorized
parse_number least _ = err AssertionError.unauthorized

-- A value that its schema takes.
pub parse_opaque_id-is :
    (s : String) → is_opaque_id 160 s ≡ true → parse_opaque_id (some (Json.text s)) ≡ ok s
unfolding parse_opaque_id
parse_opaque_id-is s h = ground arith

pub parse_name-is : (s : String) → is_name s ≡ true → parse_name (some (Json.text s)) ≡ ok s
unfolding parse_name
parse_name-is s h = ground arith

pub parse_one_of-is :
    (texts : List String) (s : String)
    → includes texts s ≡ true
    → parse_one_of texts (some (Json.text s)) ≡ ok s
unfolding parse_one_of
parse_one_of-is texts s h = ground arith

pub parse_number-is : (least n : ℕ) → least ≤ n → parse_number least (some (Json.number n)) ≡ ok n
unfolding parse_number
parse_number-is least n h = ground arith
