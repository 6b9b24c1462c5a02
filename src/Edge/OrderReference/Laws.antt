-- ===== src/Edge/OrderReference/Laws.antt =====
-- Which order the customer means, by apps/services/edge-api/src/order-reference.ts.
use mathlib.Core.List.{reverse}
use customer_service_os_lite.Common.{
  ℕ, zero, suc, ◌+◌, ◌≤◌, ◌≡◌, ◌⊎◌, ◌↔◌, refl, ap, ◌∙◌, inl, inr, Bool, true, false, Option, none,
  some, List, [], ◌∷◌, ◌++◌, String, codes, leb, ltb, ◌-◌, ◌&&◌, if◌then◌else◌, arith,
}
use customer_service_os_lite.Common.Lists.{length, All, take}
use customer_service_os_lite.Edge.OrderReference.{
  is_tail, is_word, ends_at, longest, match_at, candidates_in, OrderReferenceResolution,
  resolve_from_text, latest_reference, resolve_from_messages,
}

OrderReferenceResolution-cases :
    (r : OrderReferenceResolution)
    → (r ≡ OrderReferenceResolution.absent)
      ⊎ ((r ≡ OrderReferenceResolution.ambiguous)
          ⊎ ((v : List ℕ) × (r ≡ OrderReferenceResolution.unique v)))
OrderReferenceResolution-cases OrderReferenceResolution.absent = inl refl
OrderReferenceResolution-cases OrderReferenceResolution.ambiguous = inr (inl refl)
OrderReferenceResolution-cases (OrderReferenceResolution.unique v) = inr (inr (v, refl))

-- The messages behind the one that names the reference have none.
abbrev pub AreSilent : List String → Type 0
AreSilent = All (λ m. resolve_from_text m ≡ OrderReferenceResolution.absent)

-- A message of a list, the latest first, is the latest that is not silent.
pub record IsLatest (messages : List String) (value : List ℕ) : Type 0 where
  pub later : List String
  pub message : String
  pub earlier : List String
  pub split : messages ≡ later ++ message ∷ earlier
  pub silent : AreSilent later
  pub names : resolve_from_text message ≡ OrderReferenceResolution.unique value

latest_reference-IsLatest :
    (messages : List String) (value : List ℕ)
    → latest_reference messages ≡ some value
    → IsLatest messages value
unfolding latest_reference
latest_reference-IsLatest [] value h = absurd (cc h)
latest_reference-IsLatest (m ∷ ms) value h =
    elim (OrderReferenceResolution-cases (resolve_from_text m)) [
      | inl silent ↦
          let rest = latest_reference-IsLatest ms value (ground arith) in
          record {
            later = m ∷ rest.later;
            message = rest.message;
            earlier = rest.earlier;
            split = ap (λ (xs : List String). m ∷ xs) rest.split;
            silent = (silent, rest.silent);
            names = rest.names;
          }
      | inr (inl torn) ↦ absurd (ground arith)
      | inr (inr (v, is)) ↦
          let same : v ≡ value = ground arith in
          record {
            later = [];
            message = m;
            earlier = ms;
            split = refl;
            silent = tt;
            names = is ∙ ap OrderReferenceResolution.unique same;
          }
    ]

silent-latest :
    (later : List String) (message : String) (earlier : List String) (value : List ℕ)
    → AreSilent later
    → resolve_from_text message ≡ OrderReferenceResolution.unique value
    → latest_reference (later ++ message ∷ earlier) ≡ some value
unfolding latest_reference
silent-latest [] message earlier value silent names = ground arith
silent-latest (m ∷ later) message earlier value (none_here, silent) names =
    let rest = silent-latest later message earlier value silent names in ground arith

-- The reference of a conversation without an explicit one: it is the one that the latest message gives
-- that gives any at all, and it is given exactly where that message has one reference and not several.
pub resolve_from_messages_iff :
    (messages : List String) (value : List ℕ)
    → (resolve_from_messages messages none ≡ some value) ↔ IsLatest (reverse messages) value
unfolding resolve_from_messages
resolve_from_messages_iff messages value = (
  latest_reference-IsLatest (reverse messages) value,
  λ l.
      ap latest_reference l.split
      ∙ silent-latest l.later l.message l.earlier value l.silent l.names,
)

-- A length that is found is one that the pattern allows, and that the text has.
abbrev IsWithin : ℕ → Option ℕ → Type 0
IsWithin limit none = Unit
IsWithin limit (some n) = (8 ≤ n) × (n ≤ 100) × (n ≤ limit)

if-IsWithin :
    (limit : ℕ) (b : Bool) (x y : Option ℕ)
    → (b ≡ true → IsWithin limit x)
    → IsWithin limit y
    → IsWithin limit (if b then x else y)
if-IsWithin limit true x y taken left = taken refl
if-IsWithin limit false x y taken left = left

and_left : (a b : Bool) → (a && b) ≡ true → a ≡ true
and_left true b h = refl
and_left false b h = cc h

long_enough :
    (taken limit : ℕ) (b : Bool)
    → taken ≤ 100
    → taken ≤ limit
    → (leb 8 taken && b) ≡ true
    → IsWithin limit (some taken)
long_enough taken limit b h room test =
    let long = and_left (leb 8 taken) b test in (ground arith, h, room)

and_right : (a b : Bool) → (a && b) ≡ true → b ≡ true
and_right true b h = h
and_right false b h = cc h

longest-IsWithin :
    (taken c : ℕ) (rest : List ℕ) (best : Option ℕ) (limit : ℕ)
    → taken ≤ 100
    → taken + length rest ≤ limit
    → IsWithin limit best
    → IsWithin limit (longest taken c rest best)
unfolding longest
longest-IsWithin taken c [] best limit h room within =
    if-IsWithin limit (leb 8 taken && is_word c) (some taken) best
      (long_enough taken limit (is_word c) h (omega arith)) within
longest-IsWithin taken c (d ∷ rest) best limit h room within =
    let test = leb 8 taken && ends_at c (d ∷ rest) in
    let here = if test then some taken else best in
    let now =
      if-IsWithin limit test (some taken) best
        (long_enough taken limit (ends_at c (d ∷ rest)) h (omega arith)) within in
    if-IsWithin limit (is_tail d && ltb taken 100) (longest (suc taken) d rest here) here
      (λ more.
        longest-IsWithin (suc taken) d rest here limit
          (let short = and_right (is_tail d) (ltb taken 100) more in ground arith) (omega arith)
          now)
      now

match_at-IsWithin :
    (behind : Bool) (c : ℕ) (rest : List ℕ) → IsWithin (suc (length rest)) (match_at behind c rest)
unfolding match_at
match_at-IsWithin behind c rest =
    if-IsWithin (suc (length rest)) _ (longest 1 c rest none) none
      (λ test. longest-IsWithin 1 c rest none (suc (length rest)) (omega arith) (omega arith) tt) tt

length-take : (n : ℕ) (xs : List ℕ) → n ≤ length xs → length (take n xs) ≡ n
length-take zero xs h = refl
length-take (suc n) [] h = absurd (omega arith)
length-take (suc n) (x ∷ xs) h = let rest = length-take n xs (omega arith) in omega arith

abbrev pub HasReferenceLength : List ℕ → Type 0
HasReferenceLength candidate = (8 ≤ length candidate) × (length candidate ≤ 100)

candidates-HasReferenceLength :
    (skip : ℕ) (behind : Bool) (cs : List ℕ) → All HasReferenceLength (candidates_in skip behind cs)
unfolding candidates_in
candidates-HasReferenceLength skip behind [] = tt
candidates-HasReferenceLength (suc skip) behind (c ∷ rest) =
    candidates-HasReferenceLength skip (is_word c) rest
candidates-HasReferenceLength zero behind (c ∷ rest) =
    matched (λ n. candidates-HasReferenceLength n (is_word c) rest) (match_at behind c rest)
      (match_at-IsWithin behind c rest)
  where
    matched :
        ((n : ℕ) → All HasReferenceLength (candidates_in n (is_word c) rest))
        → (m : Option ℕ) → IsWithin (suc (length rest)) m
        → All HasReferenceLength (elim m [
          | none ↦ candidates_in zero (is_word c) rest
          | some n ↦ take n (c ∷ rest) ∷ candidates_in (n - 1) (is_word c) rest
        ])
    matched further none within = further zero
    matched further (some n) (low, high, room) =
        let size = length-take n (c ∷ rest) (omega arith) in
        ((omega arith, omega arith), further (n - 1))

-- What the pattern takes for a reference in a message has 8 to 100 characters.
pub candidates_in-HasReferenceLength :
    (message : String) → All HasReferenceLength (candidates_in 0 false (codes message))
candidates_in-HasReferenceLength message = candidates-HasReferenceLength 0 false (codes message)
