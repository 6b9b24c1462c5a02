-- ===== src/Common/Lists/Members.antt =====
-- The members of a filtered, a sorted and a cut list.
use mathlib.Core.Path.{◌≡◌, refl, sym, ap, ◌∙◌, subst}
use mathlib.Core.Logic.{◌↔◌, inl, inr, ∥∥₁_elim, ∥∥₁_map}
use mathlib.Core.Bool.{Bool, true, false, Bool-set}
use mathlib.Core.List.{List, [], ◌∷◌, Mem, Memᴰ}
use mathlib.Core.List.Memᴰ
use native.Mathlib.Omega.{arith}
use Prim.Native.Nat.{ℕ, zero, suc, ◌≤◌}
use Prim.Native.String.{String}
use customer_service_os_lite.Common.Strings.{str_eq, str_eq_iff, includes}
use customer_service_os_lite.Common.Tests.{Bool-cases, leb, if◌then◌else◌}
use customer_service_os_lite.Common.Lists.{All, some_of, length, keep, take}

module _ {ℓ} {A : Type ℓ} (test : A → Bool) where
  keep-taken : (x : A) (xs : List A) → test x ≡ true → keep test (x ∷ xs) ≡ x ∷ keep test xs
  keep-taken x xs h = rw h refl

  keep-dropped : (x : A) (xs : List A) → test x ≡ false → keep test (x ∷ xs) ≡ keep test xs
  keep-dropped x xs h = rw h refl

  kept-parts : (xs : List A) (a : A) → Memᴰ a (keep test xs) → Memᴰ a xs × (test a ≡ true)
  kept-parts [] a m = absurd (Memᴰ.not-nil m)
  kept-parts (x ∷ xs) a m = elim (Bool-cases (test x)) [
    | inl h ↦ elim (Memᴰ.cases_cons (subst (Memᴰ a) (keep-taken x xs h) m)) [
      | inl e ↦ (Memᴰ.head e, ap test e ∙ h)
      | inr rest ↦ let (in_xs, is) = kept-parts xs a rest in (Memᴰ.tail in_xs, is)
    ]
    | inr h ↦
        let (in_xs, is) = kept-parts xs a (subst (Memᴰ a) (keep-dropped x xs h) m) in
        (Memᴰ.tail in_xs, is)
  ]

  parts-kept : (xs : List A) (a : A) → Memᴰ a xs → test a ≡ true → Memᴰ a (keep test xs)
  parts-kept [] a m h = absurd (Memᴰ.not-nil m)
  parts-kept (x ∷ xs) a (Memᴰ.head e) h =
      subst (Memᴰ a) (sym (keep-taken x xs (ap test (sym e) ∙ h))) (Memᴰ.head e)
  parts-kept (x ∷ xs) a (Memᴰ.tail m) h =
      let rest = parts-kept xs a m h in
      elim (Bool-cases (test x)) [
        | inl taken ↦ subst (Memᴰ a) (sym (keep-taken x xs taken)) (Memᴰ.tail rest)
        | inr dropped ↦ subst (Memᴰ a) (sym (keep-dropped x xs dropped)) rest
      ]

  pub mem-keep : (xs : List A) (a : A) → Mem a (keep test xs) ↔ (Mem a xs × (test a ≡ true))
  mem-keep xs a = (
    λ m. (
      ∥∥₁_map m (λ d. (kept-parts xs a d).0),
      ∥∥₁_elim m (Bool-set (test a) true) (λ d. (kept-parts xs a d).1),
    ),
    λ (m, h). ∥∥₁_map m (λ d. parts-kept xs a d h),
  )

module _ {ℓ} {A : Type ℓ} where
  pub length-take :
      (n : ℕ) (xs : List A) → length (take n xs) ≡ (if leb n (length xs) then n else length xs)
  length-take zero xs = ground arith
  length-take (suc n) [] = ground arith
  length-take (suc n) (x ∷ xs) = let rest = length-take n xs in ground arith

  pub take-all : (n : ℕ) (xs : List A) → length xs ≤ n → take n xs ≡ xs
  take-all zero [] h = refl
  take-all zero (x ∷ xs) h = absurd (omega arith)
  take-all (suc n) [] h = refl
  take-all (suc n) (x ∷ xs) h = ap (λ ys. x ∷ ys) (take-all n xs (omega arith))

  take-mem : (n : ℕ) (xs : List A) (a : A) → Memᴰ a (take n xs) → Memᴰ a xs
  take-mem zero xs a m = absurd (Memᴰ.not-nil m)
  take-mem (suc n) [] a m = absurd (Memᴰ.not-nil m)
  take-mem (suc n) (x ∷ xs) a (Memᴰ.head e) = Memᴰ.head e
  take-mem (suc n) (x ∷ xs) a (Memᴰ.tail m) = Memᴰ.tail (take-mem n xs a m)

  pub mem_take : (n : ℕ) (xs : List A) (a : A) → Mem a (take n xs) → Mem a xs
  mem_take n xs a m = ∥∥₁_map m (take-mem n xs a)

  pub All-mem {κ} : (P : A → Type κ) (xs : List A) → ((a : A) → Mem a xs → P a) → All P xs
  All-mem P [] h = tt
  All-mem P (x ∷ xs) h =
      (h x ∣ Memᴰ.head refl ∣₁, All-mem P xs (λ a m. h a (∥∥₁_map m (λ d. Memᴰ.tail d))))

module _ {ℓ} {A : Type ℓ} (test : A → Bool) where
  pub some_of-found : (xs : List A) → some_of test xs ≡ true → (a : A) × Mem a xs × (test a ≡ true)
  some_of-found [] h = absurd (cc h)
  some_of-found (x ∷ xs) h = elim (Bool-cases (test x)) [
    | inl here ↦ (x, ∣ Memᴰ.head refl ∣₁, here)
    | inr past ↦
        let (a, m, is) = some_of-found xs (ground arith) in (a, ∥∥₁_map m (λ d. Memᴰ.tail d), is)
  ]

  found-some : (xs : List A) (a : A) → Memᴰ a xs → test a ≡ true → some_of test xs ≡ true
  found-some [] a m h = absurd (Memᴰ.not-nil m)
  found-some (x ∷ xs) a (Memᴰ.head e) h =
      let is : test x ≡ true = ap test (sym e) ∙ h in ground arith
  found-some (x ∷ xs) a (Memᴰ.tail m) h = let rest = found-some xs a m h in ground arith

  pub found-some_of : (xs : List A) (a : A) → Mem a xs → test a ≡ true → some_of test xs ≡ true
  found-some_of xs a m h = ∥∥₁_elim m (Bool-set (some_of test xs) true) (λ d. found-some xs a d h)

pub includes-mem : (xs : List String) (x : String) → includes xs x ≡ true → Mem x xs
includes-mem [] x h = absurd (cc h)
includes-mem (y ∷ ys) x h = elim (Bool-cases (str_eq y x)) [
  | inl same ↦ ∣ Memᴰ.head (sym ((str_eq_iff y x).0 same)) ∣₁
  | inr other ↦ ∥∥₁_map (includes-mem ys x (ground arith)) (λ d. Memᴰ.tail d)
]

there-includes : (xs : List String) (x : String) → Memᴰ x xs → includes xs x ≡ true
there-includes [] x m = absurd (Memᴰ.not-nil m)
there-includes (y ∷ ys) x (Memᴰ.head e) = let is = (str_eq_iff y x).1 (sym e) in ground arith
there-includes (y ∷ ys) x (Memᴰ.tail m) = let rest = there-includes ys x m in ground arith

pub mem-includes : (xs : List String) (x : String) → Mem x xs → includes xs x ≡ true
mem-includes xs x m = ∥∥₁_elim m (Bool-set (includes xs x) true) (there-includes xs x)
