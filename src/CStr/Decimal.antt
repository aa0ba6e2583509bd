-- ===== src/CStr/Decimal.antt =====
-- `%d` for a number that is not negative.
use cuddl.Base.{ℕ, zero, suc, ◌+◌, ◌/◌, ◌%◌, ◌≡◌, refl, List, [], ◌∷◌, ◌++◌, ltb, if◌then◌else◌}

-- The fuel `suc n` is enough for `n`, since it falls by the division.
unfoldable pub decimal_fuel : ℕ → ℕ → List ℕ
decimal_fuel zero n = []
decimal_fuel (suc fuel) n =
    let front = decimal_fuel fuel (n / 10) in
    if ltb n 10 then (n + 48) ∷ [] else front ++ ((n % 10 + 48) ∷ [])

unfoldable pub decimal : ℕ → List ℕ
unfolding decimal_fuel
decimal n = decimal_fuel (suc n) n

decimal_256 : decimal 256 ≡ 50 ∷ 53 ∷ 54 ∷ []
unfolding decimal
decimal_256 = refl
