-- ===== src/Prelude/Decimal.antt =====
-- Python's `str` of a natural number.
use Prim.Native.Nat.{ℕ, zero, suc, ◌+◌, ◌/◌, ◌%◌}
use mathlib.Core.List.{[], ◌∷◌, ◌++◌}
use fathomline.Prelude.Tests.{ltb, if◌then◌else◌}
use fathomline.Prelude.Json.{Text}

-- The decimal digits of a number, by fuel: a number has at most as many digits as its value plus
-- one.
unfoldable pub decimal : ℕ → ℕ → Text
decimal zero n = []
decimal (suc fuel) n =
    let front = decimal fuel (n / 10) in
    if ltb n 10 then (b'0' + n) ∷ [] else front ++ (b'0' + n % 10) ∷ []

abbrev pub decimal_text : ℕ → Text
decimal_text n = decimal (suc n) n
