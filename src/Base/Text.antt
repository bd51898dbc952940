-- ===== src/Base/Text.antt =====
-- Texts put together: f-strings, and decimal numbers.
use Prim.Native.Nat.{ℕ, zero, suc, ◌/◌, ◌%◌}
use Prim.Native.String
use Prim.Native.String.{String, slice}
use mathlib.Core.List.{List, [], ◌∷◌}
use brokerops.Base.Tests.{ltb, if◌then◌else◌}

-- The parts of an f-string, one after the other.
abbrev pub concat : List String → String
concat [] = ""
concat (s ∷ rest) = String.◌++◌ s (concat rest)

-- The digit of a number below ten.
unfoldable pub digit : ℕ → String
digit n = slice "0123456789" n (suc n)

-- `str(n)`: a number has fewer digits than its value plus one.
unfoldable pub decimal_fuel : ℕ → ℕ → String
unfolding digit
decimal_fuel zero n = ""
decimal_fuel (suc fuel) n =
    let rest = concat (decimal_fuel fuel (n / 10) ∷ digit (n % 10) ∷ []) in
    if ltb n 10 then digit n else rest

unfoldable pub decimal : ℕ → String
unfolding decimal_fuel
decimal n = decimal_fuel (suc n) n

-- `f"{n:02d}"`
unfoldable pub two_digits : ℕ → String
unfolding decimal digit
two_digits n = if ltb n 10 then concat ("0" ∷ digit n ∷ []) else decimal n
