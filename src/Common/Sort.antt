-- ===== src/Common/Sort.antt =====
-- `Array.prototype.sort` as a stable insertion sort, and the order of JavaScript on texts.
pub mod Laws
use Prim.Native.Nat.{ℕ, ◌+◌, ◌-◌, ◌/◌, ◌%◌, compare, Ordering}
use Prim.Native.String.{String}
use mathlib.Core.Bool.{Bool, true, false}
use mathlib.Core.List.{List, [], ◌∷◌}
use customer_service_os_lite.Common.Tests.{ltb, if◌then◌else◌}
use customer_service_os_lite.Common.Strings.{codes}

-- The UTF-16 code units of a list of code points.
abbrev pub utf16 : List ℕ → List ℕ
utf16 [] = []
utf16 (c ∷ cs) =
    let rest = utf16 cs in
    if ltb c 0x10000
    then c ∷ rest
    else (0xd800 + (c - 0x10000) / 0x400) ∷ (0xdc00 + (c - 0x10000) % 0x400) ∷ rest

-- Lexicographic comparison of code units.
pub compare_units : List ℕ → List ℕ → Ordering
compare_units [] [] = Ordering.eq
compare_units [] (y ∷ ys) = Ordering.lt
compare_units (x ∷ xs) [] = Ordering.gt
compare_units (x ∷ xs) (y ∷ ys) =
    let rest = compare_units xs ys in
    elim (compare x y) [
      | Ordering.lt ↦ Ordering.lt
      | Ordering.eq ↦ rest
      | Ordering.gt ↦ Ordering.gt
    ]

-- `left < right`, `left > right` on texts
unfoldable pub compare_strings : String → String → Ordering
unfolding compare_units
compare_strings a b = compare_units (utf16 (codes a)) (utf16 (codes b))

unfoldable pub leb_string : String → String → Bool
unfolding compare_strings
leb_string a b = elim (compare_strings a b) [ Ordering.gt ↦ false | _ ↦ true ]

-- A stable sort by a Boolean order.
module _ {ℓ} {A : Type ℓ} (le : A → A → Bool) where
  unfoldable pub insert_by : A → List A → List A
  insert_by x [] = x ∷ []
  insert_by x (y ∷ ys) = let rest = insert_by x ys in if le x y then x ∷ y ∷ ys else y ∷ rest

  unfoldable pub sort_by : List A → List A
  unfolding insert_by
  sort_by [] = []
  sort_by (x ∷ xs) = insert_by x (sort_by xs)
