-- ===== src/CStr.antt =====
-- The functions of string.h and stdio.h that the code calls, over lists of bytes. A string or a
-- character array is the list of its bytes, and past the end of the list stands the terminator 0.
pub mod Laws
pub mod Decimal
use Prim.Native.Char.{code}
use Prim.Native.String.{String}
use Prim.Native.Nat.{compare, Ordering}
use cuddl.Base.{
  ℕ, zero, suc, ◌-◌, Bool, true, false, List, [], ◌∷◌, ◌++◌, take, drop, ◌==◌, if◌then◌else◌,
}

abbrev pub Str : Type 0
Str = List ℕ

-- CUDDLCI_MAX_STR_LEN
abbrev pub max_str_len : ℕ
max_str_len = 256

-- The bytes of a literal.
abbrev pub codes : String → Str
codes String.[] = []
codes (String.◌∷◌ c s) = code c ∷ codes s

unfoldable pub strnlen : Str → ℕ → ℕ
strnlen s zero = 0
strnlen [] (suc n) = 0
strnlen (c ∷ s) (suc n) = if c == 0 then 0 else suc (strnlen s n)

-- The sign of the result is an `Ordering`: 0 is `eq`.
unfoldable pub strncmp : Str → Str → ℕ → Ordering
strncmp s t zero = Ordering.eq
strncmp [] [] (suc n) = Ordering.eq
strncmp [] (d ∷ t) (suc n) = if d == 0 then Ordering.eq else Ordering.lt
strncmp (c ∷ s) [] (suc n) = if c == 0 then Ordering.eq else Ordering.gt
strncmp (c ∷ s) (d ∷ t) (suc n) =
    let rest = strncmp s t n in
    elim (compare c d) [
      | Ordering.lt ↦ Ordering.lt
      | Ordering.gt ↦ Ordering.gt
      | Ordering.eq ↦ if c == 0 then Ordering.eq else rest
    ]

abbrev pub is_eq : Ordering → Bool
is_eq Ordering.eq = true
is_eq _ = false

-- What `strncpy` writes: `n` bytes, zeros from the end of the source on.
unfoldable pub padded : Str → ℕ → Str
padded s zero = []
padded [] (suc n) = 0 ∷ padded [] n
padded (c ∷ s) (suc n) = c ∷ padded (if c == 0 then [] else s) n

-- The destination as it is after `strncpy(dest, src, n)`.
unfoldable pub strncpy : Str → Str → ℕ → Str
unfolding padded
strncpy dest src n = padded src n ++ drop n dest

-- The bytes before the terminator.
unfoldable pub text : Str → Str
text [] = []
text (c ∷ s) = if c == 0 then [] else c ∷ text s

-- `strncat(dest, src, n)` appends at most `n` bytes of `src` and a terminator.
unfoldable pub strncat : Str → Str → ℕ → Str
unfolding text
strncat dest src n = text dest ++ take n (text src)

-- The array as it is after `snprintf(dest, n, ...)` prints `s`, `n` being its size.
unfoldable pub snprintf : ℕ → Str → Str
unfolding padded
snprintf n s = padded (take (n - 1) s) n
