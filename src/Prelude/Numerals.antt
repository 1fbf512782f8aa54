-- ===== src/Prelude/Numerals.antt =====
-- Python's `str(n)` of a number, by decimal digits.
use Prim.Native.Nat.{ℕ, zero, suc, ◌/◌, ◌%◌}
use Prim.Native.String.{String, ◌∷◌, ◌++◌, char_at}
use sanuvia_reasoning_engine.Prelude.Tests.{if◌then◌else◌, ltb}

-- The digit of a number below ten
abbrev digit : ℕ → String
digit n = char_at "0123456789" n ∷ ""

-- A number is divided by ten fewer times than its value, which is the fuel.
abbrev digits_of : ℕ → ℕ → String
digits_of zero n = digit n
digits_of (suc fuel) n =
    let front = digits_of fuel (n / 10) in if ltb n 10 then digit n else front ++ digit (n % 10)

abbrev pub decimal : ℕ → String
decimal n = digits_of n n
