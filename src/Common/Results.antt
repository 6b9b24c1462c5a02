-- ===== src/Common/Results.antt =====
-- What an exported function of the program does where it may throw: it either returns a value, or
-- leaves with the error that it throws.
use mathlib.Core.Path.{◌≡◌, refl}
use mathlib.Core.Logic.{◌⊎◌, inl, inr}
use mathlib.Core.Bool.{Bool, true, false, not, ◌&&◌}
use mathlib.Core.Option.{Option, none, some}

-- `Result Thrown A`: the error type comes first.
pub data Result (Thrown A : Type 0) : Type 0 where
  ok : (returned : A) → Result Thrown A
  err : (thrown : Thrown) → Result Thrown A

infixl 5 ◌>>=◌ ◌>>◌
-- The statement behind a call is reached only where the call returns.
abbrev pub ◌>>=◌ : {Thrown A C : Type 0} → Result Thrown A → (A → Result Thrown C) → Result Thrown C
err thrown >>= continue = err thrown
ok returned >>= continue = continue returned

abbrev pub ◌>>◌ : {Thrown C : Type 0} → Result Thrown (Unit {0}) → Result Thrown C → Result Thrown C
call >> rest = call >>= λ nothing. rest

-- `if (test) throw error;`
abbrev pub throw_if : {Thrown : Type 0} → Bool → Thrown → Result Thrown (Unit {0})
throw_if test error = elim test [ true ↦ err error | false ↦ ok tt ]

-- `if (value === undefined) throw error;`
abbrev pub or_throw : {Thrown A : Type 0} → Option A → Thrown → Result Thrown A
or_throw value error = elim value [ none ↦ err error | some found ↦ ok found ]

-- Where a sequence returns, its first call has.
pub >>=-eq-ok :
    {Thrown A C : Type 0} (call : Result Thrown A) (continue : A → Result Thrown C) {c : C}
    → (call >>= continue) ≡ ok c
    → (returned : A) × (call ≡ ok returned) × (continue returned ≡ ok c)
>>=-eq-ok (err thrown) continue is = cc is
>>=-eq-ok (ok returned) continue is = (returned, refl, is)

pub throw_if-eq-ok :
    {Thrown C : Type 0} (test : Bool) (error : Thrown) (rest : Result Thrown C) {c : C}
    → (throw_if test error >> rest) ≡ ok c
    → (test ≡ false) × (rest ≡ ok c)
throw_if-eq-ok false error rest is = (refl, is)
throw_if-eq-ok true error rest is = cc is

pub Result-cases :
    {Thrown A : Type 0} (r : Result Thrown A)
    → ((thrown : Thrown) × (r ≡ err thrown)) ⊎ ((a : A) × (r ≡ ok a))
Result-cases (err thrown) = inl (thrown, refl)
Result-cases (ok a) = inr (a, refl)

pub ok-injective : {Thrown A : Type 0} {a b : A} → ◌≡◌ {A = Result Thrown A} (ok a) (ok b) → a ≡ b
ok-injective h = cc h

pub or_throw-eq-ok :
    {Thrown A C : Type 0} (value : Option A) (error : Thrown) (continue : A → Result Thrown C)
    {c : C}
    → (or_throw value error >>= continue) ≡ ok c
    → (found : A) × (value ≡ some found) × (continue found ≡ ok c)
or_throw-eq-ok none error continue is = cc is
or_throw-eq-ok (some found) error continue is = (found, refl, is)

pub pair_parts :
    {E A C : Type 0} (a b : A) (c d : C)
    → ◌≡◌ {A = Result E (A × C)} (ok (a, c)) (ok (b, d))
    → (b ≡ a) × (d ≡ c)
pair_parts a b c d h = (cc h, cc h)

-- Where a call's result is paired with what it wrote.
pub answer-eq-ok :
    {E B R S : Type 0} (call : Result E B) (f : B → R) (g : B → S) (r : R) (s : S)
    → ◌≡◌ {A = Result E (R × S)} (call >>= λ b. ok (f b, g b)) (ok (r, s))
    → (b : B) × (call ≡ ok b) × (r ≡ f b) × (s ≡ g b)
answer-eq-ok (err e) f g r s h = cc h
answer-eq-ok (ok b) f g r s h =
    let (same, kept) = pair_parts (f b) r (g b) s h in (b, refl, same, kept)

pub not-eq-false : (b : Bool) → not b ≡ false → b ≡ true
not-eq-false true h = refl
not-eq-false false h = cc h

pub and_parts : (a b : Bool) → (a && b) ≡ true → (a ≡ true) × (b ≡ true)
and_parts true b h = (refl, h)
and_parts false b h = absurd (cc h)
