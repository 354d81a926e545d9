-- ===== src/Base/Numbers.antt =====
-- Numbers of the source that need not be natural, and their decimal form.
use Prim.Native.Nat.{ℕ, zero, suc, ◌+◌, ◌/◌, ◌%◌}
use mathlib.Core.List.{[], ◌∷◌}
use entryva.Base.Tests.{ltb, if◌then◌else◌}
use entryva.Base.Strings.{Text}

-- A value of type `number` that a request carries: `below_zero n` is -(n + 1), and `not_integer`
-- stands for fractions, the infinities and NaN.
pub data JsNumber : Type 0 where
  whole : ℕ → JsNumber
  below_zero : ℕ → JsNumber
  not_integer : JsNumber

decimal : ℕ → ℕ → Text → Text
decimal zero n rest = rest
decimal (suc f) n rest =
    let more = decimal f (n / 10) ((48 + n % 10) ∷ rest) in
    if ltb n 10 then (48 + n) ∷ rest else more

-- `String(n)`; a number has at most as many digits as it counts, and one more round is given.
unfoldable pub show : ℕ → Text
unfolding decimal
show n = decimal (suc n) n []

-- `String(n).padStart(2, '0')`
unfoldable pub show_two : ℕ → Text
unfolding show
show_two n = if ltb n 10 then 48 ∷ show n else show n
