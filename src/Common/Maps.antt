-- ===== src/Common/Maps.antt =====
-- JavaScript's `Map` with text keys: its entries in the order of their first insertion.
use mathlib.Core.Path.{◌≡◌, refl}
use mathlib.Core.Logic.{◌≢◌}
use mathlib.Core.List.{List, [], ◌∷◌}
use mathlib.Core.Option.{Option, none, some}
use Prim.Native.String.{String}
use native.Mathlib.Omega.{arith}
use customer_service_os_lite.Common.Tests.{if◌then◌else◌}
use customer_service_os_lite.Common.Strings.{str_eq, str_eq_iff}

module _ {ℓ} {V : Type ℓ} where
  -- `map.get(key)`
  unfoldable pub map_get : String → List (String × V) → Option V
  map_get key [] = none
  map_get key ((k, v) ∷ m) = if str_eq k key then some v else map_get key m

  -- `map.set(key, value)`
  unfoldable pub map_set : String → V → List (String × V) → List (String × V)
  map_set key value [] = (key, value) ∷ []
  map_set key value ((k, v) ∷ m) =
      let rest = map_set key value m in if str_eq k key then (k, value) ∷ m else (k, v) ∷ rest

  -- `map.delete(key)`
  unfoldable pub map_delete : String → List (String × V) → List (String × V)
  map_delete key [] = []
  map_delete key ((k, v) ∷ m) =
      let rest = map_delete key m in if str_eq k key then m else (k, v) ∷ rest

  pub get-set-same :
      (key : String) (value : V) (m : List (String × V))
      → map_get key (map_set key value m) ≡ some value
  unfolding map_get map_set
  get-set-same key value [] = let same = str_eq_iff key key in ground arith
  get-set-same key value ((k, v) ∷ m) =
      let rest = get-set-same key value m in let same = str_eq_iff k key in ground arith

  pub get-set-other :
      (key other : String) (value : V) (m : List (String × V))
      → other ≢ key
      → map_get other (map_set key value m) ≡ map_get other m
  unfolding map_get map_set
  get-set-other key other value [] h = let same = str_eq_iff key other in ground arith
  get-set-other key other value ((k, v) ∷ m) h =
      let rest = get-set-other key other value m h in
      let same = str_eq_iff k key in
      let there = str_eq_iff k other in let both = str_eq_iff key other in ground arith

  pub get-delete-other :
      (key other : String) (m : List (String × V))
      → other ≢ key
      → map_get other (map_delete key m) ≡ map_get other m
  unfolding map_get map_delete
  get-delete-other key other [] h = refl
  get-delete-other key other ((k, v) ∷ m) h =
      let rest = get-delete-other key other m h in
      let same = str_eq_iff k key in let there = str_eq_iff k other in ground arith
