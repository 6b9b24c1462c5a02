-- ===== src/Edge/OrderReference.antt =====
-- apps/services/edge-api/src/order-reference.ts. A reference is the list of its
-- characters. The characters of a text are its code points: the pattern names ASCII characters only, so
-- surrogates do not matter to it.
pub mod Laws
use mathlib.Core.List.{reverse}
use customer_service_os_lite.Common.{
  ℕ, zero, suc, ◌+◌, ◌-◌, Bool, true, false, not, ◌&&◌, ◌||◌, Option, none, some, List, [], ◌∷◌,
  map, String, codes, includes, is_letter, is_digit, is_alphanumeric, ltb, leb, ◌==◌, if◌then◌else◌,
}
use customer_service_os_lite.Common.Lists.{some_of, take}

-- `\w`, and `[A-Za-z0-9-]`
abbrev pub is_word : ℕ → Bool
is_word c = is_alphanumeric c || (c == 95)

abbrev pub is_tail : ℕ → Bool
is_tail c = is_alphanumeric c || (c == 45)

-- `\b` behind a character: the text goes on with one of the other kind, or ends behind a word.
abbrev pub ends_at : ℕ → List ℕ → Bool
ends_at c [] = is_word c
ends_at c (d ∷ rest) = if is_word c then not (is_word d) else is_word d

-- The greatest length of 8 to 100 at which the pattern matches: `taken` characters up to c are
-- taken, `best` is the greatest length so far.
pub longest : ℕ → ℕ → List ℕ → Option ℕ → Option ℕ
longest taken c [] best = if leb 8 taken && is_word c then some taken else best
longest taken c (d ∷ rest) best =
    let here = if leb 8 taken && ends_at c (d ∷ rest) then some taken else best in
    let further = longest (suc taken) d rest here in
    if is_tail d && ltb taken 100 then further else here

-- A match at a character, where no word goes on.
pub match_at : Bool → ℕ → List ℕ → Option ℕ
unfolding longest
match_at behind_word c rest =
    if is_alphanumeric c && not behind_word then longest 1 c rest none else none

-- `matchAll`: the matched characters, from left to right; `skip` characters belong to the last match.
unfoldable pub candidates_in : ℕ → Bool → List ℕ → List (List ℕ)
unfolding match_at
candidates_in skip behind_word [] = []
candidates_in (suc skip) behind_word (c ∷ rest) = candidates_in skip (is_word c) rest
candidates_in zero behind_word (c ∷ rest) =
    let past = candidates_in zero (is_word c) rest in
    elim (match_at behind_word c rest) [
      | none ↦ past
      | some n ↦ take n (c ∷ rest) ∷ candidates_in (n - 1) (is_word c) rest
    ]

-- `/[A-Za-z]/.test(candidate) && /\d/.test(candidate)`
abbrev pub is_reference : List ℕ → Bool
is_reference candidate = some_of is_letter candidate && some_of is_digit candidate

-- `toUpperCase` on the ASCII characters of a candidate
abbrev pub upper_case_code : ℕ → ℕ
upper_case_code c = if leb 97 c && leb c 122 then c - 32 else c

abbrev pub same_codes : List ℕ → List ℕ → Bool
same_codes [] [] = true
same_codes (x ∷ xs) (y ∷ ys) = (x == y) && same_codes xs ys
same_codes [] (y ∷ ys) = false
same_codes (x ∷ xs) [] = false

pub data OrderReferenceResolution : Type 0 where
  absent ambiguous : OrderReferenceResolution
  unique : List ℕ → OrderReferenceResolution

-- The `Set` of references, the latest insertion first.
pub references : List (List ℕ) → List (List ℕ) → List (List ℕ)
references seen [] = seen
references seen (candidate ∷ rest) =
    let value = map upper_case_code candidate in
    let grown = references (value ∷ seen) rest in
    let kept = references seen rest in
    if is_reference candidate && not (some_of (same_codes value) seen) then grown else kept

unfoldable pub resolve_from_text : String → OrderReferenceResolution
unfolding references candidates_in
resolve_from_text message = elim (references [] (candidates_in 0 false (codes message))) [
  | [] ↦ OrderReferenceResolution.absent
  | value ∷ [] ↦ OrderReferenceResolution.unique value
  | value ∷ other ∷ more ↦ OrderReferenceResolution.ambiguous
]

unfoldable pub resolve_order_reference : String → Option String → Option (List ℕ)
resolve_order_reference message (some explicit) = some (codes explicit)
resolve_order_reference message none = elim (resolve_from_text message) [
  | OrderReferenceResolution.unique value ↦ some value
  | _ ↦ none
]

-- The loop over the messages, the latest first.
unfoldable pub latest_reference : List String → Option (List ℕ)
latest_reference [] = none
latest_reference (message ∷ earlier) =
    let older = latest_reference earlier in
    elim (resolve_from_text message) [
      | OrderReferenceResolution.ambiguous ↦ none
      | OrderReferenceResolution.unique value ↦ some value
      | OrderReferenceResolution.absent ↦ older
    ]

unfoldable pub resolve_from_messages : List String → Option String → Option (List ℕ)
unfolding latest_reference
resolve_from_messages messages (some explicit) = some (codes explicit)
resolve_from_messages messages none = latest_reference (reverse messages)
