-- ===== src/Common/Dates.antt =====
-- Instants as the program passes them: a text that `Date.parse` reads, or one that it rejects.
use Prim.Native.Nat.{ℕ}
use Prim.Native.String.{String}
use mathlib.Core.Option.{Option, none, some}
use customer_service_os_lite.Common.Tests.{leb, if◌then◌else◌}

-- `at n` is a well-formed text for the instant n milliseconds after the epoch; texts of one instant
-- are not told apart. `malformed` is any other text.
pub data Timestamp : Type 0 where
  at : ℕ → Timestamp
  malformed : String → Timestamp

-- `Date.parse(text)`; `none` is NaN
abbrev pub date_parse : Timestamp → Option ℕ
date_parse (at n) = some n
date_parse (malformed s) = none

-- The largest time value of ECMAScript; beyond it `toISOString` throws a RangeError.
abbrev pub max_time_value : ℕ
max_time_value = 8640000000000000

-- `new Date(n).toISOString()`; `none` is the RangeError
abbrev pub to_iso_string : ℕ → Option Timestamp
to_iso_string n = if leb n max_time_value then some (at n) else none
