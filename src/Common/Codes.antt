-- ===== src/Common/Codes.antt =====
-- The classes of characters that the program's patterns name, on code points.
use Prim.Native.Nat.{ℕ, suc}
use Prim.Native.String.{String}
use mathlib.Core.Bool.{Bool, true, false, ◌&&◌, ◌||◌}
use mathlib.Core.List.{List, [], ◌∷◌}
use customer_service_os_lite.Common.Tests.{leb, ◌==◌}
use customer_service_os_lite.Common.Lists.{length}
use customer_service_os_lite.Common.Strings.{codes}

-- `[A-Za-z0-9]` and `[A-Za-z0-9._:-]` on a code point
abbrev pub is_digit : ℕ → Bool
is_digit c = leb 48 c && leb c 57

abbrev pub is_letter : ℕ → Bool
is_letter c = (leb 65 c && leb c 90) || (leb 97 c && leb c 122)

abbrev pub is_alphanumeric : ℕ → Bool
is_alphanumeric c = is_letter c || is_digit c

abbrev pub is_opaque_code : ℕ → Bool
is_opaque_code c = is_alphanumeric c || ((c == 46) || ((c == 95) || ((c == 58) || (c == 45))))

abbrev all_opaque : List ℕ → Bool
all_opaque [] = true
all_opaque (c ∷ cs) = is_opaque_code c && all_opaque cs

-- `/^[A-Za-z0-9][A-Za-z0-9._:-]*$/` on a text of at most this length
abbrev pub is_opaque_id : ℕ → String → Bool
is_opaque_id max s = elim (codes s) [
  | [] ↦ false
  | c ∷ cs ↦ is_alphanumeric c && (all_opaque cs && leb (suc (length cs)) max)
]
