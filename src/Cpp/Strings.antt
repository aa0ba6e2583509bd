-- ===== src/Cpp/Strings.antt =====
-- The members of std::string and the conversions that the C++ interface calls, over lists of bytes.
pub mod Laws
pub mod Numbers
use cuddl.Base.{
  ℕ, zero, suc, ◌+◌, ◌-◌, ◌*◌, Bool, false, ◌&&◌, ◌||◌, Option, none, some, [], ◌∷◌, ◌==◌, leb, ltb,
  drop, take, if◌then◌else◌, ℤ, pos, negsuc, int_max_suc,
}
use cuddl.CStr.{Str}
use cuddl.CStr.Decimal.{decimal}

-- The index of the first `c`.
unfoldable pub index : ℕ → Str → Option ℕ
index c [] = none
index c (x ∷ s) =
    let rest = index c s in
    if x == c then some 0 else elim rest [ none ↦ none | some i ↦ some (suc i) ]

-- An index that counts from the start of what comes before.
abbrev pub moved : ℕ → Option ℕ → Option ℕ
moved i none = none
moved i (some j) = some (i + j)

-- `s.find(c, i)`; `none` is npos.
unfoldable pub find : Str → ℕ → ℕ → Option ℕ
unfolding index
find s c i = moved i (index c (drop i s))

-- `s.substr(i, n)`
unfoldable pub substr : Str → ℕ → ℕ → Str
substr s i n = take n (drop i s)

-- `std::to_string(int)`
unfoldable pub to_string : ℤ → Str
unfolding decimal
to_string (pos n) = decimal n
to_string (negsuc n) = 45 ∷ decimal (suc n)

abbrev pub is_digit : ℕ → Bool
is_digit c = leb 48 c && leb c 57

-- isspace
abbrev is_space : ℕ → Bool
is_space c = c == 32 || leb 9 c && leb c 13

unfoldable pub skip_spaces : Str → Str
skip_spaces [] = []
skip_spaces (c ∷ s) = let rest = skip_spaces s in if is_space c then rest else c ∷ s

unfoldable pub starts_with_digit : Str → Bool
starts_with_digit [] = false
starts_with_digit (c ∷ s) = is_digit c

-- The number that the leading digits spell behind `n`.
unfoldable pub digits_value : ℕ → Str → ℕ
digits_value n [] = n
digits_value n (c ∷ s) =
    let rest = digits_value (n * 10 + (c - 48)) s in if is_digit c then rest else n

abbrev negated : ℕ → ℤ
negated zero = pos 0
negated (suc n) = negsuc n

-- Out of the range of `int`, `stoi` throws.
abbrev positive_int : ℕ → Option ℤ
positive_int n = if ltb n int_max_suc then some (pos n) else none

abbrev negative_int : ℕ → Option ℤ
negative_int n = if leb n int_max_suc then some (negated n) else none

abbrev magnitude : (ℕ → Option ℤ) → Str → Option ℤ
magnitude f s = if starts_with_digit s then f (digits_value 0 s) else none

unfoldable pub signed : Str → Option ℤ
unfolding starts_with_digit digits_value
signed [] = none
signed (c ∷ s) =
    if c == 45
    then magnitude negative_int s
    else if c == 43
    then magnitude positive_int s
    else magnitude positive_int (c ∷ s)

-- `std::stoi(s)`: blanks, a sign, and digits; what follows the digits is not looked at. `none` is an
-- exception.
unfoldable pub stoi : Str → Option ℤ
unfolding skip_spaces signed
stoi s = signed (skip_spaces s)
