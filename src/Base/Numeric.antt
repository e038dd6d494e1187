-- ===== src/Base/Numeric.antt =====
-- What the program reads from a JavaScript number that it does not trust.
use Prim.Native.Nat.{ℕ, max}
use mathlib.Core.Bool.{Bool}
use mathlib.Core.Option.{Option, none, some}
use pi_roaster.Base.Tests.{ltb, if◌then◌else◌}

-- A finite number is kept as its whole part and whether a fraction is left.
pub data JsNumber : Type 0 where
  nan infinite : JsNumber
  negative : ℕ → Bool → JsNumber
  whole : ℕ → Bool → JsNumber

-- `Math.max(low, Math.trunc(x))` of a finite number, and nothing for any other.
unfoldable pub trunc_at_least : ℕ → JsNumber → Option ℕ
trunc_at_least low nan = none
trunc_at_least low infinite = none
trunc_at_least low (negative n f) = some low
trunc_at_least low (whole n f) = some (max low n)

-- `Math.floor(x)` of a finite number if that is positive, and nothing for any other.
unfoldable pub positive_integer : Option JsNumber → Option ℕ
positive_integer none = none
positive_integer (some nan) = none
positive_integer (some infinite) = none
positive_integer (some (negative n f)) = none
positive_integer (some (whole n f)) = if ltb 0 n then some n else none
