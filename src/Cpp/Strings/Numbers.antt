-- ===== src/Cpp/Strings/Numbers.antt =====
-- Printing a number and reading it back.
use cuddl.Base.{
  ℕ, zero, suc, ◌+◌, ◌/◌, ◌%◌, ◌<◌, ◌≡◌, true, some, [], ◌∷◌, ◌++◌, arith, Bool-cases, inl, inr,
  ltb, ℤ, pos, negsuc, int_max_suc,
}
use mathlib.Core.List.{append_assoc, append-nil}
use cuddl.CStr.{Str}
use cuddl.CStr.Decimal.{decimal, decimal_fuel}
use cuddl.Cpp.Strings.{to_string, digits_value, starts_with_digit, stoi}

digits_value-decimal_fuel :
    (fuel n : ℕ) (t : Str) → n < fuel → digits_value 0 (decimal_fuel fuel n ++ t) ≡ digits_value n t
unfolding digits_value decimal_fuel
digits_value-decimal_fuel zero n t h = absurd (omega arith)
digits_value-decimal_fuel (suc fuel) n t h = elim (Bool-cases (ltb n 10)) [
  | inl e ↦ rw e (ground arith)
  | inr e ↦
      rw (e, append_assoc)
        (ground (arith, digits_value-decimal_fuel fuel (n / 10) ((n % 10 + 48) ∷ t)))
]

starts_with_digit-decimal_fuel :
    (fuel n : ℕ) (t : Str) → n < fuel → starts_with_digit (decimal_fuel fuel n ++ t) ≡ true
unfolding starts_with_digit decimal_fuel
starts_with_digit-decimal_fuel zero n t h = absurd (omega arith)
starts_with_digit-decimal_fuel (suc fuel) n t h = elim (Bool-cases (ltb n 10)) [
  | inl e ↦ rw e (ground arith)
  | inr e ↦
      rw (e, append_assoc)
        (ground (arith, starts_with_digit-decimal_fuel fuel (n / 10) ((n % 10 + 48) ∷ t)))
]

pub digits_value-decimal : (n : ℕ) → digits_value 0 (decimal n) ≡ n
unfolding decimal digits_value
digits_value-decimal n =
    rw (← append-nil (decimal_fuel (suc n) n))
      (digits_value-decimal_fuel (suc n) n [] (omega arith))

pub starts_with_digit-decimal : (n : ℕ) → starts_with_digit (decimal n) ≡ true
unfolding decimal
starts_with_digit-decimal n =
    rw (← append-nil (decimal_fuel (suc n) n))
      (starts_with_digit-decimal_fuel (suc n) n [] (omega arith))

-- A text that starts with a digit has no sign and no blanks before it.
stoi_unsigned :
    (s : Str)
    → starts_with_digit s ≡ true
    → digits_value 0 s < int_max_suc
    → stoi s ≡ some (pos (digits_value 0 s))
unfolding stoi starts_with_digit
stoi_unsigned [] d h = cc
stoi_unsigned (c ∷ s) d h = ground arith

stoi_minus :
    (s : Str) (n : ℕ)
    → starts_with_digit s ≡ true
    → digits_value 0 s ≡ suc n
    → n < int_max_suc
    → stoi (45 ∷ s) ≡ some (negsuc n)
unfolding stoi
stoi_minus s n d e h = ground arith

-- The values of a C `int`.
abbrev pub IsInt : ℤ → Type 0
IsInt (pos n) = n < int_max_suc
IsInt (negsuc n) = n < int_max_suc

pub stoi-to_string : (i : ℤ) → IsInt i → stoi (to_string i) ≡ some i
unfolding to_string
stoi-to_string (pos n) h =
    ground (arith, digits_value-decimal n, starts_with_digit-decimal n, stoi_unsigned (decimal n))
stoi-to_string (negsuc n) h =
    stoi_minus (decimal (suc n)) n (starts_with_digit-decimal (suc n))
      (digits_value-decimal (suc n)) h
