-- ===== src/Base/Number.antt =====
-- A JavaScript number: an integer, or a fraction, an infinity or NaN.
use Prim.Native.Nat.{ℕ}
use mathlib.Core.Bool.{Bool, true, false}
use malign_ai.Base.Int.{ℤ, pos, negsuc}
use malign_ai.Base.Failure.{Result, ok, err, Exception, range_error}

pub data Number : Type 0 where
  int : ℤ → Number
  non_integer : Number

-- `Number.isInteger(x) && x >= 0`
abbrev pub is_count : Number → Bool
is_count (int (pos n)) = true
is_count (int (negsuc n)) = false
is_count non_integer = false

-- The value of a number that `is_count` accepts; for another the `RangeError` is thrown.
abbrev pub require_count : Number → Result Exception ℕ
require_count (int (pos n)) = ok n
require_count (int (negsuc n)) = err range_error
require_count non_integer = err range_error

abbrev pub nat : ℕ → Number
nat n = int (pos n)
