-- ===== src/Common/Lists/Laws.antt =====
-- How the predicates and searches on lists meet `++` and `map`.
use Prim.Native.Nat.{ℕ, zero, suc, ◌+◌}
use mathlib.Core.Path.{◌≡◌, refl}
use mathlib.Core.Bool.{Bool, true, false}
use mathlib.Core.List.{List, [], ◌∷◌, ◌++◌, map}
use mathlib.Core.Option.{none, some}
use native.Mathlib.Omega.{arith}
use customer_service_os_lite.Common.Tests.{if◌then◌else◌}
use customer_service_os_lite.Common.Lists.{length, keep, find, All}

-- n numbers from this one on
abbrev pub count_from : ℕ → ℕ → List ℕ
count_from first zero = []
count_from first (suc n) = first ∷ count_from (suc first) n

pub count_from-snoc :
    (first n : ℕ) → count_from first (suc n) ≡ count_from first n ++ (first + n) ∷ []
count_from-snoc first zero = grind arith
count_from-snoc first (suc n) = grind (arith, count_from-snoc (suc first) n)

module _ {ℓ} {A : Type ℓ} where
  pub keep-append :
      (test : A → Bool) (xs ys : List A) → keep test (xs ++ ys) ≡ keep test xs ++ keep test ys
  keep-append test [] ys = refl
  keep-append test (x ∷ xs) ys = let rest = keep-append test xs ys in ground arith

  pub find-append-some :
      (test : A → Bool) (xs ys : List A) (x : A)
      → find test xs ≡ some x
      → find test (xs ++ ys) ≡ some x
  find-append-some test [] ys x h = cc h
  find-append-some test (z ∷ xs) ys x h = let rest = find-append-some test xs ys x in ground arith

  pub find-append-none :
      (test : A → Bool) (xs ys : List A) → find test xs ≡ none → find test (xs ++ ys) ≡ find test ys
  find-append-none test [] ys h = refl
  find-append-none test (z ∷ xs) ys h = let rest = find-append-none test xs ys in ground arith

  pub All-map {κ μ} :
      {P : A → Type κ} {Q : A → Type μ}
      → ((x : A) → P x → Q x)
      → (xs : List A) → All P xs
      → All Q xs
  All-map f [] ps = tt
  All-map f (x ∷ xs) (p, ps) = (f x p, All-map f xs ps)

  pub All-keep {κ} :
      (P : A → Type κ) (test : A → Bool) (xs : List A) → All P xs → All P (keep test xs)
  All-keep P test [] ps = tt
  All-keep P test (x ∷ xs) (p, ps) =
      let rest = All-keep P test xs ps in
      elim (test x) as (λ b. All P (if b then x ∷ keep test xs else keep test xs)) [
        | true ↦ (p, rest)
        | false ↦ rest
      ]

module _ {ℓ κ} {A : Type ℓ} {B : Type κ} where
  pub map-snoc : (f : A → B) (xs : List A) (x : A) → map f (xs ++ x ∷ []) ≡ map f xs ++ f x ∷ []
  map-snoc f [] x = refl
  map-snoc f (y ∷ ys) x = cc (map-snoc f ys x)

module _ {ℓ κ μ} {A : Type ℓ} {B : Type κ} {C : Type μ} where
  pub map-compose : (f : A → B) (g : B → C) (xs : List A) → map g (map f xs) ≡ map (λ x. g (f x)) xs
  map-compose f g [] = refl
  map-compose f g (x ∷ xs) = cc (map-compose f g xs)

module _ {ℓ κ} {A : Type ℓ} {B : Type κ} where
  -- Where no function moves what the test sees, it may come first.
  pub map-keep :
      (test : A → Bool) (g : A → A) (f : A → B)
      → ((x : A) → test (g x) ≡ test x)
      → ((x : A) → f (g x) ≡ f x)
      → (xs : List A) → map f (keep test (map g xs)) ≡ map f (keep test xs)
  map-keep test g f stable same [] = refl
  map-keep test g f stable same (x ∷ xs) =
      let rest = map-keep test g f stable same xs in
      let t = stable x in let s = same x in ground arith

  pub map-map :
      (g : A → A) (f : A → B)
      → ((x : A) → f (g x) ≡ f x)
      → (xs : List A) → map f (map g xs) ≡ map f xs
  map-map g f same [] = refl
  map-map g f same (x ∷ xs) = let rest = map-map g f same xs in let s = same x in cc (rest, s)

  pub length-map : (f : A → B) (xs : List A) → length (map f xs) ≡ length xs
  length-map f [] = refl
  length-map f (x ∷ xs) = omega (arith, length-map f xs)

module _ {ℓ} {A : Type ℓ} where
  pub All-through {κ} :
      {P : A → Type κ} (g : A → A)
      → ((x : A) → P x → P (g x))
      → (xs : List A) → All P xs
      → All P (map g xs)
  All-through g f [] ps = tt
  All-through g f (x ∷ xs) (p, ps) = (f x p, All-through g f xs ps)

  -- Where no function moves what the test sees, it finds the same item.
  pub find-map :
      (test : A → Bool) (g : A → A)
      → ((x : A) → test (g x) ≡ test x)
      → (xs : List A) (x : A) → find test xs ≡ some x
      → find test (map g xs) ≡ some (g x)
  find-map test g stable [] x h = cc h
  find-map test g stable (y ∷ ys) x h =
      let rest = find-map test g stable ys x in let here = stable y in ground arith
