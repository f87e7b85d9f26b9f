-- ===== src/Prelude/Text.antt =====
-- Template literals: joining strings, and numbers in decimal.
use Prim.Native.Nat.{ℕ, zero, suc, ◌/◌, ◌%◌}
use Prim.Native.String
use Prim.Native.String.{String}
use mathlib.Core.List.{List, [], ◌∷◌}
use looms.Prelude.Tests.{ltb, if◌then◌else◌}

infixr 65 ◌<>◌
abbrev pub ◌<>◌ : String → String → String
s <> t = String.◌++◌ s t

unfoldable pub digit : List String → ℕ → String
digit [] d = ""
digit (s ∷ ss) zero = s
digit (s ∷ ss) (suc d) = digit ss d

-- Fuel above the number is enough, since each round divides it by ten.
unfoldable pub show_from : ℕ → ℕ → String
unfolding digit
show_from zero n = ""
show_from (suc fuel) n =
    let last = digit ("0" ∷ "1" ∷ "2" ∷ "3" ∷ "4" ∷ "5" ∷ "6" ∷ "7" ∷ "8" ∷ "9" ∷ []) (n % 10) in
    let more = show_from fuel (n / 10) <> last in if ltb n 10 then last else more

-- `${n}` for a natural number
unfoldable pub show : ℕ → String
unfolding show_from
show n = show_from (suc n) n
