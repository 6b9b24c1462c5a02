-- ===== src/Policy/Canonical.antt =====
-- `canonicalizeJson` and `hashPolicyInput` of apps/services/workflow-workers/src/refund-policy.ts.
-- Texts are lists of code points. SHA-256 and the text of an instant come from the platform.
use Prim.Native.String
use customer_service_os_lite.Common.{
  ℕ, zero, suc, ◌+◌, ◌/◌, ◌%◌, Bool, true, false, Option, none, some, List, [], ◌∷◌, ◌++◌, map,
  String, codes, ltb, ◌==◌, if◌then◌else◌, Result, ok, err, ◌>>=◌,
}
use customer_service_os_lite.Common.Int.{ℤ, pos, negsuc, is_safe_integer}
use customer_service_os_lite.Common.Sort.{leb_string, sort_by}
use customer_service_os_lite.Common.Dates.{Timestamp}
use customer_service_os_lite.Policy.Types.{
  Money, FactRef, Scope, full_order, selected_items, unspecified, RefundDestination,
  original_payment_method, store_credit, PolicyRequest, PolicyFacts, RefundPolicyInput, PolicyError,
}

-- The values of `canonicalizeJson` that can occur: it throws on any other.
mutual
  pub data Json : Type 0 where
    null : Json
    boolean : Bool → Json
    number : ℤ → Json
    text : String → Json
    array : Items → Json
    object : Fields → Json

  pub data Items : Type 0 where
    nil : Items
    cons : Json → Items → Items

  pub data Fields : Type 0 where
    end : Fields
    field : String → Json → Fields → Fields

-- The decimal digits of a number; a fuel above the number is enough.
pub decimal_from : ℕ → ℕ → List ℕ → List ℕ
decimal_from zero n acc = acc
decimal_from (suc fuel) n acc =
    let digits = (b'0' + n % 10) ∷ acc in
    let rest = decimal_from fuel (n / 10) digits in if ltb n 10 then digits else rest

pub print_integer : ℤ → List ℕ
unfolding decimal_from
print_integer (pos n) = decimal_from (suc n) n []
print_integer (negsuc n) = b'-' ∷ decimal_from (suc (suc n)) (suc n) []

pub hex_digit : ℕ → ℕ
hex_digit d = if ltb d 10 then b'0' + d else b'a' + d % 10

-- One code point inside the quotes that `JSON.stringify` writes.
pub escape : ℕ → List ℕ
unfolding hex_digit
escape c =
    if c == 0x22
    then 0x5c ∷ 0x22 ∷ []
    else if c == 0x5c
    then 0x5c ∷ 0x5c ∷ []
    else if c == 8
    then 0x5c ∷ b'b' ∷ []
    else if c == 9
    then 0x5c ∷ b't' ∷ []
    else if c == 10
    then 0x5c ∷ b'n' ∷ []
    else if c == 12
    then 0x5c ∷ b'f' ∷ []
    else if c == 13
    then 0x5c ∷ b'r' ∷ []
    else if ltb c 32
    then 0x5c ∷ b'u' ∷ b'0' ∷ b'0' ∷ hex_digit (c / 16) ∷ hex_digit (c % 16) ∷ []
    else c ∷ []

pub escape_all : List ℕ → List ℕ
unfolding escape
escape_all [] = []
escape_all (c ∷ cs) = escape c ++ escape_all cs

pub quote : String → List ℕ
unfolding escape_all
quote s = 0x22 ∷ (escape_all (codes s) ++ 0x22 ∷ [])

-- `parts.join(",")`
pub join_comma : List (List ℕ) → List ℕ
join_comma [] = []
join_comma (p ∷ []) = p
join_comma (p ∷ q ∷ ps) = p ++ b',' ∷ join_comma (q ∷ ps)

-- Members in the order of their keys.
abbrev key_le : String × List ℕ → String × List ℕ → Bool
key_le a b = leb_string a.0 b.0

abbrev member_text : String × List ℕ → List ℕ
member_text (k, v) = quote k ++ b':' ∷ v

mutual
  unfolding print_integer quote join_comma sort_by leb_string

  pub canonicalize_json : Json → Result PolicyError (List ℕ)
  canonicalize_json null = ok (codes "null")
  canonicalize_json (boolean true) = ok (codes "true")
  canonicalize_json (boolean false) = ok (codes "false")
  canonicalize_json (number n) =
      if is_safe_integer n
      then ok (print_integer n)
      else err PolicyError.non_canonical_policy_number
  canonicalize_json (text s) = ok (quote s)
  canonicalize_json (array xs) =
      canonicalize_items xs >>= λ parts. ok (b'[' ∷ (join_comma parts ++ b']' ∷ []))
  canonicalize_json (object fs) = canonicalize_fields fs >>= λ members.
      ok (b'{' ∷ (join_comma (map member_text (sort_by key_le members)) ++ b'}' ∷ []))

  pub canonicalize_items : Items → Result PolicyError (List (List ℕ))
  canonicalize_items nil = ok []
  canonicalize_items (cons x xs) =
      canonicalize_json x >>= λ p. canonicalize_items xs >>= λ ps. ok (p ∷ ps)

  pub canonicalize_fields : Fields → Result PolicyError (List (String × List ℕ))
  canonicalize_fields end = ok []
  canonicalize_fields (field k v fs) =
      canonicalize_json v >>= λ p. canonicalize_fields fs >>= λ ps. ok ((k, p) ∷ ps)

-- An optional field is absent where it is undefined.
abbrev optional_field : String → Option Json → Fields → Fields
optional_field k none rest = rest
optional_field k (some v) rest = field k v rest

abbrev optional_value : {A : Type 0} → (A → Json) → Option A → Option Json
optional_value f none = none
optional_value f (some a) = some (f a)

abbrev scope_text : Scope → String
scope_text full_order = "FULL_ORDER"
scope_text selected_items = "SELECTED_ITEMS"
scope_text unspecified = "UNSPECIFIED"

abbrev destination_text : RefundDestination → String
destination_text original_payment_method = "ORIGINAL_PAYMENT_METHOD"
destination_text store_credit = "STORE_CREDIT"
destination_text RefundDestination.other = "OTHER"

pub money_json : Money → Json
money_json m =
    object (field "amountMinor" (number m.amount_minor) (field "currency" (text m.currency) end))

pub text_items : List String → Items
text_items [] = nil
text_items (s ∷ ss) = cons (text s) (text_items ss)

pub request_json : PolicyRequest → Json
unfolding money_json text_items
request_json r = object (
    field "proposalId" (text r.proposal_id) (
      field "orderId" (text r.order_id) (
        field "reasonCode" (text r.reason_code) (
          field "scope" (text (scope_text r.scope)) (
            field "itemIds" (array (text_items r.item_ids)) (
              optional_field "requestedAmount" (optional_value money_json r.requested_amount)
                end))))))

pub facts_json : PolicyFacts → Json
unfolding money_json
facts_json f = object (
    optional_field "customerVerified" (optional_value boolean f.customer_verified) (
      optional_field "transactionRefundable" (optional_value boolean f.transaction_refundable) (
        optional_field "itemSelectionValid" (optional_value boolean f.item_selection_valid) (
          optional_field "priorRefundCount" (optional_value number f.prior_refund_count) (
            optional_field "refundableAmount" (optional_value money_json f.refundable_amount) (
              optional_field "refundDestination"
                (optional_value (λ d. text (destination_text d)) f.refund_destination) end))))))

-- What the evaluation takes from the platform: the hexadecimal SHA-256 digest of a text
-- (node:crypto), and the text of an instant.
pub record Platform : Type 0 where
  pub sha256_hex : List ℕ → String
  pub iso_text : Timestamp → String

module _ (platform : Platform) where
  pub ref_items : List FactRef → Items
  ref_items [] = nil
  ref_items (r ∷ rs) =
      cons
        (object (
          field "factId" (text r.fact_id) (
            field "factType" (text r.fact_type) (
              field "sourceVersion" (text r.source_version)
                (field "observedAt" (text (platform.iso_text r.observed_at)) end)))))
        (ref_items rs)

  pub input_json : RefundPolicyInput → Json
  unfolding request_json facts_json ref_items
  input_json input = object (
      field "schemaVersion" (text "1") (
        field "journeyType" (text "REFUND") (
          field "policyVersion" (text input.policy_version) (
            field "request" (request_json input.request) (
              field "facts" (facts_json input.facts)
                (field "factRefs" (array (ref_items input.fact_refs)) end))))))

  unfoldable pub hash_policy_input : RefundPolicyInput → Result PolicyError String
  unfolding canonicalize_json input_json
  hash_policy_input input = canonicalize_json (input_json input) >>= λ bytes.
      ok (String.◌++◌ "sha256:" (platform.sha256_hex bytes))
